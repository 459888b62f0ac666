-- ===== src/Database/Index/Changes.antt =====
-- What Set and Delete of internal/database/index.go do to the store of an index.
use genji.Prelude.{
  ℕ, ◌≡◌, refl, sym, ap, subst, ◌∙◌, ◌⊎◌, inl, inr, Bool, true, false, Option, none, some, List, [],
  ◌∷◌, ◌++◌, Bytes, leb, length, compare_bytes, Ordering, arith, Bool-cases,
}
use genji.Prelude.Results.{ok, ok-injective, bind-ok, check-ok}
use genji.Document.{Value, null, ValueType, type_code, type_of}
use genji.Document.Encode.{Base64, array_value_delim}
use genji.Database.Store.{Store, put, items_from}
use genji.Database.Index.{
  IndexInfo, wrong_arity, wrong_type, is_any, marshal_binary, encode_value, encode_each,
  encode_value_buffer, exists_from, set_encoded, set, scope, in_scope, build_seek, unless_duplicate,
}
use genji.Database.Index.Search.{NotBefore, prefix-NotBefore}

-- What a Set that succeeds has done.
pub record WasSet (b64 : Base64) (i : IndexInfo) (vs : List Value) (k : Bytes) (st st' : Store ℕ)
    : Type 0 where
  pub e : Bytes
  pub encoded : encode_value_buffer b64 i vs ≡ ok e
  pub stored : st' ≡ put (e ++ k) (length e) st
  pub fresh : i.unique ≡ true → exists_from e (items_from e st) ≡ none

unless_duplicate-ok :
    (u : Bool) (o : Option Bytes) (s st : Store ℕ)
    → unless_duplicate u o s ≡ ok st
    → (st ≡ s) × (u ≡ true → o ≡ none)
unfolding unless_duplicate
unless_duplicate-ok true (some j) s st h = absurd (cc h)
unless_duplicate-ok true none s st h = (sym (ok-injective h), λ q. refl)
unless_duplicate-ok false o s st h = (sym (ok-injective h), λ q. absurd (cc q))

pub set-WasSet :
    (b64 : Base64) (i : IndexInfo) (vs : List Value) (k : Bytes) (st st' : Store ℕ)
    → set b64 i vs k st ≡ ok st'
    → WasSet b64 i vs k st st'
unfolding set set_encoded
set-WasSet b64 i vs [] st st' h = absurd (cc h)
set-WasSet b64 i [] (c ∷ k) st st' h = absurd (cc h)
set-WasSet b64 i (v ∷ vs) (c ∷ k) st st' h =
    let checks = check-ok _ wrong_arity _ h in
    let types = check-ok _ wrong_type _ checks.1 in
    let r = bind-ok (encode_value_buffer b64 i (v ∷ vs)) _ types.1 in
    let s = unless_duplicate-ok i.unique (exists_from r.0 (items_from r.0 st)) _ st' r.1.1 in
    record { e = r.0; encoded = r.1.0; stored = s.0; fresh = s.1 }

-- Where Delete begins to search, and what bounds the search.
pub record Begins (b64 : Base64) (i : IndexInfo) (vs : List Value) (e : Bytes) : Type 0 where
  pub start : Bytes
  pub built : build_seek b64 i vs ≡ ok start
  pub before : (k : Bytes) → NotBefore start (e ++ k)
  pub scoped :
      (j k : Bytes)
      → NotBefore start j
      → (compare_bytes j (e ++ k) ≡ Ordering.lt) ⊎ (j ≡ e ++ k)
      → in_scope (scope i vs) j ≡ true

same_begin :
    (c : ℕ) (s e j : Bytes)
    → NotBefore (c ∷ s) j
    → (compare_bytes j (c ∷ e) ≡ Ordering.lt) ⊎ (j ≡ c ∷ e)
    → in_scope (some c) j ≡ true
unfolding in_scope compare_bytes
same_begin c s e [] h o = absurd (h refl)
same_begin c s e (b ∷ j) h (inl q) = grind (arith, h, q)
same_begin c s e (b ∷ j) h (inr q) = let z : b ≡ c = cc q in ground (arith, z)

Begins-scoped :
    (b64 : Base64) (i : IndexInfo) (v : Value) (vs : List Value) (c : ℕ) (e : Bytes)
    → scope i (v ∷ vs) ≡ some c
    → encode_value_buffer b64 i (v ∷ vs) ≡ ok (c ∷ e)
    → Begins b64 i (v ∷ vs) (c ∷ e)
unfolding build_seek
Begins-scoped b64 i null vs c e h q = record {
  start = c ∷ [];
  built = rw (h, build_seek) refl;
  before = λ k. prefix-NotBefore (c ∷ []) (e ++ k);
  scoped = λ j k b o. rw h (same_begin c [] (e ++ k) j b o);
}
Begins-scoped b64 i v vs c e h q = record {
  start = c ∷ e;
  built = q;
  before = prefix-NotBefore (c ∷ e);
  scoped = λ j k b o. rw h (same_begin c e (e ++ k) j b o);
}

Begins-anywhere :
    (b64 : Base64) (i : IndexInfo) (v : Value) (vs : List Value) (e : Bytes)
    → scope i (v ∷ vs) ≡ none
    → encode_value_buffer b64 i (v ∷ vs) ≡ ok e
    → Begins b64 i (v ∷ vs) e
unfolding build_seek in_scope
Begins-anywhere b64 i null vs e h q = record {
  start = e;
  built = rw (h, build_seek) q;
  before = prefix-NotBefore e;
  scoped = λ j k b o. rw h refl;
}
Begins-anywhere b64 i v vs e h q = record {
  start = e;
  built = q;
  before = prefix-NotBefore e;
  scoped = λ j k b o. rw h refl;
}

encode_value_any :
    (b64 : Base64) (t : ValueType) (v : Value)
    → is_any t ≡ true
    → encode_value b64 t v ≡ ok (type_code (type_of v) ∷ marshal_binary b64 v)
unfolding encode_value
encode_value_any b64 t v h = rw h refl

-- In an index that is not typed, the values begin with the type of the first one.
encode_first :
    (b64 : Base64) (t : ValueType) (ts : List ValueType) (v : Value) (vs : List Value) (e : Bytes)
    → is_any t ≡ true
    → encode_each b64 (t ∷ ts) (v ∷ vs) ≡ ok e
    → (e' : Bytes) × (e ≡ type_code (type_of v) ∷ e')
unfolding encode_each
encode_first b64 t ts v [] e a h = (_, ok-injective (sym h ∙ encode_value_any b64 t v a))
encode_first b64 t ts v (w ∷ vs) e a h =
    let r = bind-ok (encode_value b64 t v) _ h in
    let s = bind-ok (encode_each b64 ts (w ∷ vs)) _ r.1.1 in
    let p : r.0 ≡ type_code (type_of v) ∷ marshal_binary b64 v =
      ok-injective (sym r.1.0 ∙ encode_value_any b64 t v a) in
    (_, sym (ok-injective s.1.1) ∙ ap (λ x. x ++ array_value_delim ∷ s.0) p)

pub begins :
    (b64 : Base64) (ts : List ValueType) (u : Bool) (vs : List Value) (e : Bytes)
    → encode_value_buffer b64 (record { types = ts; unique = u }) vs ≡ ok e
    → Begins b64 (record { types = ts; unique = u }) vs e
unfolding build_seek scope in_scope encode_value_buffer encode_each
begins b64 ts u [] e h = record {
  start = [];
  built = refl;
  before = λ k. prefix-NotBefore [] (e ++ k);
  scoped = λ j k b o. refl;
}
begins b64 [] u (v ∷ vs) e h =
    (let q = check-ok (leb (length (v ∷ vs)) 0) wrong_arity (encode_each b64 [] (v ∷ vs)) h in
      absurd (ground (arith, q)))
begins b64 (t ∷ ts) u (v ∷ vs) e h =
    let q = check-ok _ wrong_arity _ h in
    elim (Bool-cases (is_any t)) [
      | inr p ↦ Begins-anywhere b64 _ v vs e (rw p refl) h
      | inl p ↦
          (let r = encode_first b64 t ts v vs e p q.1 in
            subst (λ x. Begins b64 (record { types = t ∷ ts; unique = u }) (v ∷ vs) x) (sym r.1)
              (Begins-scoped b64 _ v vs (type_code (type_of v)) r.0 (rw p refl) (h ∙ ap ok r.1)))
    ]
