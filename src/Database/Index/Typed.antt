-- ===== src/Database/Index/Typed.antt =====
-- The index of one typed integer (internal/database/index.go): its values have eight bytes.
use genji.Prelude.{
  ℕ, ◌≡◌, refl, sym, ap, ◌∙◌, Bool, List, [], ◌∷◌, ◌++◌, Bytes, length, take, ◌+◌, ◌%◌,
}
use genji.Prelude.Int.{to_uint64, half64, mod64}
use genji.Prelude.Results.{ok, ok-injective}
use genji.Document.{
  Value, Fields, null, bool, integer, double, text, blob, array, document, integer_value, type_of,
  same_type, type_code,
}
use genji.Document.Encode.{Base64}
use genji.Binarysort.{append_int64, append_uint64}
use genji.Binarysort.RoundTrip.{length-big_endian}
use genji.Database.Index.{
  IndexInfo, encode_value_buffer, encode_each, encode_value, marshal_binary, is_any,
}
use genji.Database.Index.Consistent.{Separate}

take-append : (e k : Bytes) → take (length e) (e ++ k) ≡ e
take-append [] k = refl
take-append (c ∷ e) k = ap (λ x. c ∷ x) (take-append e k)

-- Values of one length never run into the keys behind them.
pub fixed-Separate :
    (b64 : Base64) (i : IndexInfo) (values : Fields → List Value) (n : ℕ)
    → ((d : Fields) (e : Bytes) → encode_value_buffer b64 i (values d) ≡ ok e → length e ≡ n)
    → Separate b64 i values
fixed-Separate b64 i values n h d d' e e' k k' p p' q =
    let l : length e ≡ length e' = h d e p ∙ sym (h d' e' p') in
    sym (take-append e k)
    ∙ ap (λ m. take m (e ++ k)) l
    ∙ ap (take (length e')) q
    ∙ take-append e' k'

abbrev pub integer_index : Bool → IndexInfo
integer_index u = record { types = integer_value ∷ []; unique = u }

integer_length :
    (b64 : Base64) (u : Bool) (v : Value) (e : Bytes)
    → encode_value_buffer b64 (integer_index u) (v ∷ []) ≡ ok e
    → length e ≡ 8
unfolding encode_value_buffer encode_each encode_value marshal_binary is_any same_type type_of
    type_code append_int64 append_uint64
integer_length b64 u (integer i) e h =
    ap length (sym (ok-injective h)) ∙ length-big_endian 8 ((to_uint64 i + half64) % mod64) []
integer_length b64 u null e h = absurd (cc h)
integer_length b64 u (bool b) e h = absurd (cc h)
integer_length b64 u (double x) e h = absurd (cc h)
integer_length b64 u (text s) e h = absurd (cc h)
integer_length b64 u (blob s) e h = absurd (cc h)
integer_length b64 u (array vs) e h = absurd (cc h)
integer_length b64 u (document fs) e h = absurd (cc h)

pub integer-Separate :
    (b64 : Base64) (u : Bool) (value : Fields → Value)
    → Separate b64 (integer_index u) (λ d. value d ∷ [])
integer-Separate b64 u value =
    fixed-Separate b64 (integer_index u) (λ d. value d ∷ []) 8
      (λ d e. integer_length b64 u (value d) e)
