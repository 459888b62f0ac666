-- ===== src/Database/Index/Exists.antt =====
-- The test for duplicates of internal/database/index.go: Exists, and the test in Set.
use genji.Prelude.{
  ℕ, ◌≡◌, refl, sym, ap, ◌∙◌, inl, inr, Bool, true, false, Option, none, some, List, [], ◌∷◌, ◌++◌,
  Bytes, length, ◌==◌, Option-cases,
}
use genji.Prelude.Results.{ok, err, bind-ok, check-ok, ok-injective}
use genji.Document.{
  Value, null, text, ValueType, null_value, text_value, any_type, bool_value, integer_value,
  double_value, blob_value, array_value, document_value, type_of, same_type, type_code,
}
use genji.Document.Encode.{Base64}
use genji.Database.Store.{Store, get, items_from, put, IsStore}
use genji.Database.Index.{
  IndexInfo, wrong_arity, wrong_type, duplicate_value, incompatible_type, is_any, encode_value,
  encode_each, encode_value_buffer, exists_from, exists, set, set_encoded, types_match,
  unless_duplicate, marshal_binary,
}
use genji.Database.Index.Search.{
  exists_from-some, items_from-IsStore, get-items_from, items_from-NotBefore,
}
use genji.Database.Index.Unique.{fresh_entries}

-- What Exists answers, for the encoded values `e`.
pub record Answers (e : Bytes) (answer : Option Bytes) (st : Store ℕ) : Type 0 where
  pub found : (d : Bytes) → answer ≡ some d → (n : ℕ) × (get (e ++ d) st ≡ some n)
  pub absent : answer ≡ none → (d : Bytes) (n : ℕ) → get (e ++ d) st ≡ some n → ⊥

exists_from-Answers :
    (e : Bytes) (st : Store ℕ) → IsStore st → Answers e (exists_from e (items_from e st)) st
exists_from-Answers e st s = record {
  found = λ d h.
      (let r = exists_from-some e d (items_from e st) (items_from-IsStore e st s) h in
        (
          r.0,
          sym (get-items_from e (e ++ d) st (items_from-NotBefore e (e ++ d) st r.0 s r.1)) ∙ r.1,
        ));
  absent = λ h d n g. fresh_entries e d st n s h g;
}

-- What Exists returns, in a store in order: what follows the encoded values in an entry that begins with
-- them, or nothing, where no entry does.
pub exists-Answers :
    (b64 : Base64) (i : IndexInfo) (vs : List Value) (st : Store ℕ) (answer : Option Bytes)
    → IsStore st
    → exists b64 i vs st ≡ ok answer
    → (e : Bytes) × ((encode_value_buffer b64 i vs ≡ ok e) × Answers e answer st)
unfolding exists
exists-Answers b64 i vs st answer s h =
    let c = check-ok (length vs == length i.types) wrong_arity _ h in
    let r = bind-ok (encode_value_buffer b64 i vs) _ c.1 in
    (r.0, (r.1.0, subst_answer r.0 (ok-injective r.1.1)))
  where
    subst_answer : (e : Bytes) → exists_from e (items_from e st) ≡ answer → Answers e answer st
    subst_answer e q = record {
      found = λ d p. (exists_from-Answers e st s).found d (q ∙ p);
      absent = λ p. (exists_from-Answers e st s).absent (q ∙ p);
    }

-- The index of one unique text.
abbrev pub unique_text : IndexInfo
unique_text = record { types = text_value ∷ []; unique = true }

set_text :
    (b64 : Base64) (s k : Bytes) (c : ℕ) (st : Store ℕ)
    → set b64 unique_text (text s ∷ []) (c ∷ k) st
      ≡ unless_duplicate true (exists_from s (items_from s st)) (put (s ++ c ∷ k) (length s) st)
unfolding set types_match set_encoded encode_value_buffer encode_each encode_value marshal_binary
    is_any same_type type_of type_code
set_text b64 s k c st = refl

append_assoc : (s t k : Bytes) → (s ++ t) ++ k ≡ s ++ (t ++ k)
append_assoc [] t k = refl
append_assoc (c ∷ s) t k = ap (λ x. c ∷ x) (append_assoc s t k)

-- In a unique index of a text, Set of a text reports a duplicate where an entry begins with that text,
-- although the one stored is longer.
pub set-longer_text :
    (b64 : Base64) (s t k k' : Bytes) (c n : ℕ) (st : Store ℕ)
    → IsStore st
    → get ((s ++ t) ++ k') st ≡ some n
    → set b64 unique_text (text s ∷ []) (c ∷ k) st ≡ err duplicate_value
unfolding unless_duplicate
set-longer_text b64 s t k k' c n st i g =
    set_text b64 s k c st ∙ elim (Option-cases (exists_from s (items_from s st))) [
      | inr p ↦ rw p.1 refl
      | inl p ↦
          absurd (
            fresh_entries s (t ++ k') st n i p (ap (λ x. get x st) (sym (append_assoc s t k')) ∙ g))
    ]

-- An index of one typed value, other than null, has no place for null: Exists panics, and Set returns an
-- error.
pub set-typed_null :
    (b64 : Base64) (t : ValueType) (u : Bool) (k : Bytes) (c : ℕ) (st : Store ℕ)
    → is_any t ≡ false
    → same_type t null_value ≡ false
    → (exists b64 (record { types = t ∷ []; unique = u }) (null ∷ []) st ≡ err incompatible_type)
      × (set b64 (record { types = t ∷ []; unique = u }) (null ∷ []) (c ∷ k) st ≡ err wrong_type)
unfolding exists set types_match encode_value_buffer encode_each encode_value is_any same_type
    type_of type_code
set-typed_null b64 any_type u k c st a h = absurd (cc a)
set-typed_null b64 null_value u k c st a h = absurd (cc h)
set-typed_null b64 bool_value u k c st a h = (refl, refl)
set-typed_null b64 integer_value u k c st a h = (refl, refl)
set-typed_null b64 double_value u k c st a h = (refl, refl)
set-typed_null b64 text_value u k c st a h = (refl, refl)
set-typed_null b64 blob_value u k c st a h = (refl, refl)
set-typed_null b64 array_value u k c st a h = (refl, refl)
set-typed_null b64 document_value u k c st a h = (refl, refl)
