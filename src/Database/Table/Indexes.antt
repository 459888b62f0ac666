-- ===== src/Database/Table/Indexes.antt =====
-- The loops of internal/database/table.go over the indexes of a table.
use genji.Prelude.{
  ◌≡◌, refl, sym, ap, subst, ◌∙◌, Bool, true, false, Option, none, some, List, [], ◌∷◌, Bytes, All,
  if◌then◌else◌,
}
use genji.Prelude.Results.{Result, ok, err, bind-ok, ok-injective, or_error, ◌>>=◌}
use genji.Document.{Value, Fields, array, document}
use genji.Document.Buffer.{
  DocumentPath, PathError, field_not_found, index_panic, get_value_from_document,
  get_value_from_value,
}
use genji.Document.Encode.{Base64}
use genji.Database.Index.{IndexError, set}
use genji.Database.Index.Consistent.{
  Documents, with_document, without_document, Separate, IsConsistent, set-IsConsistent,
  delete-IsConsistent,
}
use genji.Database.Index.Unique.{HasNoDuplicates, set-HasNoDuplicates, without-HasNoDuplicates}
use genji.Database.Table.{
  TableError, TableIndex, or_null, values_of, null_if_missing, found_values, or_table_error,
  set_all, delete_all,
}

-- An index of a table that has the documents `f`.
pub record IsIndex (b64 : Base64) (f : Documents) (i : TableIndex) : Type 0 where
  pub separate : Separate b64 i.info (values_of i.paths)
  pub consistent : IsConsistent b64 i.info (values_of i.paths) f i.entries
  pub no_duplicates : i.info.unique ≡ true → HasNoDuplicates b64 i.info (values_of i.paths) f

or_table_error-ok :
    {A : Type 0} (f : IndexError → TableError) (r : Result IndexError A) (a : A)
    → or_table_error f r ≡ ok a
    → r ≡ ok a
unfolding or_table_error
or_table_error-ok f (ok a') a h = ap ok (ok-injective h)
or_table_error-ok f (err e) a h = absurd (cc h)

pub set_all-IsIndex :
    (b64 : Base64) (g : IndexError → TableError) (f : Documents) (key : Bytes) (d : Fields)
    (is is' : List TableIndex)
    → f key ≡ none
    → All (IsIndex b64 f) is
    → set_all b64 g d key is ≡ ok is'
    → All (IsIndex b64 (with_document f key d)) is'
unfolding set_all
set_all-IsIndex b64 g f key d [] is' n a h =
    subst (All (IsIndex b64 (with_document f key d))) (ok-injective h) tt
set_all-IsIndex b64 g f key d (i ∷ is) is' n (p, a) h =
    let r = bind-ok (or_table_error g (set b64 i.info (values_of i.paths d) key i.entries)) _ h in
    let s = bind-ok (set_all b64 g d key is) _ r.1.1 in
    let q = or_table_error-ok g (set b64 i.info (values_of i.paths d) key i.entries) r.0 r.1.0 in
    let entry : IsIndex b64 (with_document f key d) (record i { entries = r.0 }) = record {
      separate = p.separate;
      consistent =
          set-IsConsistent b64 i.info (values_of i.paths) f key d i.entries r.0 p.separate n
            p.consistent q;
      no_duplicates = λ u.
          set-HasNoDuplicates b64 i.info (values_of i.paths) f key d i.entries r.0 u p.consistent
            (p.no_duplicates u) q;
    } in
    subst (All (IsIndex b64 (with_document f key d))) (ok-injective s.1.1)
      (entry, set_all-IsIndex b64 g f key d is s.0 n a s.1.0)

pub delete_all-IsIndex :
    (b64 : Base64) (values : List DocumentPath → Result TableError (List Value)) (f : Documents)
    (key : Bytes) (d : Fields) (is : List TableIndex)
    → ((ps : List DocumentPath) → values ps ≡ ok (values_of ps d))
    → f key ≡ some d
    → All (IsIndex b64 f) is
    → (is' : List TableIndex) × ((delete_all b64 values key is ≡ ok is')
        × All (IsIndex b64 (without_document f key)) is')
unfolding delete_all or_table_error
delete_all-IsIndex b64 values f key d [] v h a = ([], (refl, tt))
delete_all-IsIndex b64 values f key d (i ∷ is) v h (p, a) =
    let r =
      delete-IsConsistent b64 i.info (values_of i.paths) f key d i.entries p.separate h
        p.consistent in
    let s = delete_all-IsIndex b64 values f key d is v h a in
    let entry : IsIndex b64 (without_document f key) (record i { entries = r.0 }) = record {
      separate = p.separate;
      consistent = r.1.1;
      no_duplicates =
          λ u. without-HasNoDuplicates b64 i.info (values_of i.paths) f key (p.no_duplicates u);
    } in
    (record i { entries = r.0 } ∷ s.0, (rw (v i.paths, r.1.0, s.1.0) refl, (entry, s.1.1)))

-- A value, or ErrFieldNotFound.
abbrev OkOrMissing : Result PathError Value → Type 0
OkOrMissing r = (r ≡ err index_panic) → ⊥

bind-OkOrMissing :
    (o : Option Value) (k : Value → Result PathError Value)
    → ((w : Value) → OkOrMissing (k w))
    → OkOrMissing (or_error field_not_found o >>= k)
bind-OkOrMissing none k h e = cc e
bind-OkOrMissing (some w) k h e = h w e

missing-OkOrMissing : (r : Result PathError Value) → (r ≡ err field_not_found) → OkOrMissing r
missing-OkOrMissing r h e = let z = sym h ∙ e in cc z

if-OkOrMissing :
    (b : Bool) (r s : Result PathError Value)
    → OkOrMissing r
    → OkOrMissing s
    → OkOrMissing (if b then r else s)
if-OkOrMissing true r s h k = h
if-OkOrMissing false r s h k = k

get_value_from_value-OkOrMissing :
    (v : Value) (p : DocumentPath) → OkOrMissing (get_value_from_value v p)
unfolding get_value_from_value
get_value_from_value-OkOrMissing v [] e = cc e
get_value_from_value-OkOrMissing (document fs) (p ∷ path) e =
    if-OkOrMissing _ (err field_not_found) _ (missing-OkOrMissing _ refl)
      (bind-OkOrMissing _ _ (λ w. get_value_from_value-OkOrMissing w path)) e
get_value_from_value-OkOrMissing (array vs) (p ∷ path) e =
    if-OkOrMissing _ _ (err field_not_found)
      (bind-OkOrMissing _ _ (λ w. get_value_from_value-OkOrMissing w path))
      (missing-OkOrMissing _ refl) e
get_value_from_value-OkOrMissing v (p ∷ path) e = cc e

get_value_from_document-OkOrMissing :
    (d : Fields) (p : DocumentPath) → OkOrMissing (get_value_from_document d p)
unfolding get_value_from_document
get_value_from_document-OkOrMissing d [] e = cc e
get_value_from_document-OkOrMissing d (p ∷ path) e =
    get_value_from_value-OkOrMissing (document d) (p ∷ path) e

null_if_missing_lem :
    (r : Result PathError Value) → OkOrMissing r → null_if_missing r ≡ ok (or_null r)
unfolding null_if_missing or_null
null_if_missing_lem (ok v) h = refl
null_if_missing_lem (err field_not_found) h = refl
null_if_missing_lem (err index_panic) h = absurd (h refl)

pub found_values_lem :
    (d : Fields) (ps : List DocumentPath) → found_values ps d ≡ ok (values_of ps d)
unfolding found_values values_of
found_values_lem d [] = refl
found_values_lem d (p ∷ ps) =
    rw
      (
        null_if_missing_lem (get_value_from_document d p) (get_value_from_document-OkOrMissing d p),
        found_values_lem d ps,
      )
      refl
