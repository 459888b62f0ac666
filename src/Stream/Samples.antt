-- ===== src/Stream/Samples.antt =====
-- Streams over three documents.
use genji.Prelude.{ℕ, suc, false, compare_bytes, ◌≡◌, refl, none, some, [], ◌∷◌}
use genji.Prelude.Int.{pos}
use genji.Prelude.Results.{Result, ok, err}
use genji.Document.{integer, end, field}
use genji.Document.Floats.{Floats}
use genji.Environment.{Environment, top, buffer, Doc}
use genji.Stream.{Stream, empty_stream, pipe, documents, take, stream_closed, StreamError, each_doc}
use genji.Stream.Iterate.{iterate}
use genji.Stream.Ranges.{Range, pk_scan}
use genji.Stream.Ranges.Scans.{above, keys_within, one_key, more_keys, pk_scan-within}

abbrev zero_floats : Floats
zero_floats = record {
  of_int64 = λ i. 0;
  to_int64 = λ d. pos 0;
  add_float = λ x y. 0;
  sub_float = λ x y. 0;
  mul_float = λ x y. 0;
  div_float = λ x y. 0;
  mod_float = λ x y. 0;
}

-- {a: n}
abbrev numbered : ℕ → Doc
numbered n = buffer (field (97 ∷ []) (integer (pos n)) end)

abbrev three_docs : Stream
three_docs = pipe empty_stream (documents (numbered 1 ∷ numbered 2 ∷ numbered 3 ∷ []))

abbrev nowhere : Environment
nowhere = top none none

-- The function that counts its calls.
abbrev counts : Environment → ℕ → Result StreamError (Unit {0}) × ℕ
counts out n = (ok tt, suc n)

iterate-counts :
    iterate zero_floats (pipe three_docs (take (pos 2))) nowhere counts 0 ≡ (err stream_closed, 2)
unfolding iterate each_doc
iterate-counts = refl

-- From 2 to 4.
abbrev two_to_four : Range
two_to_four = record {
  encoded_min = some (2 ∷ []);
  encoded_max = some (4 ∷ []);
  exclusive = false;
  exact = false;
}

pk_scan-within_example :
    pk_scan false two_to_four ((2 ∷ []) ∷ (3 ∷ []) ∷ (5 ∷ []) ∷ []) ≡ (2 ∷ []) ∷ (3 ∷ []) ∷ []
unfolding keys_within above compare_bytes
pk_scan-within_example =
    pk_scan-within two_to_four ((2 ∷ []) ∷ (3 ∷ []) ∷ (5 ∷ []) ∷ []) (λ h. absurd (cc h))
      (refl, (refl, (refl, tt)))
      (more_keys (2 ∷ []) (3 ∷ []) ((5 ∷ []) ∷ []) refl
        (more_keys (3 ∷ []) (5 ∷ []) [] refl (one_key (5 ∷ []))))
