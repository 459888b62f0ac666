-- ===== src/Sequence/Samples.antt =====
-- Sequences with concrete bounds.
use genji.Prelude.{◌≡◌, refl, true, false, none, some}
use genji.Prelude.Int.{pos}
use genji.Prelude.Results.{ok}
use genji.Sequence.{
  SequenceInfo, Sequence, new_sequence, candidate, above_min, below_max, new_value, has_value,
  hand_out, handed, next,
}

-- One to five, by one, with a cache of three values.
abbrev small_info : SequenceInfo
small_info = record {
  increment_by = pos 1;
  min = pos 1;
  max = pos 5;
  start = pos 1;
  cache = 3;
  cycle = false;
}

-- By three, with a cache of two values.
abbrev wide_info : SequenceInfo
wide_info = record {
  increment_by = pos 3;
  min = pos 1;
  max = pos 100;
  start = pos 1;
  cache = 2;
  cycle = false;
}

abbrev at_two : Sequence
at_two = record {
  info = small_info;
  current_value = some (pos 2);
  cached = 2;
  lease = some (pos 3);
}

abbrev at_three : Sequence
at_three = record {
  info = small_info;
  current_value = some (pos 3);
  cached = 3;
  lease = some (pos 3);
}

abbrev at_end : Sequence
at_end = record {
  info = small_info;
  current_value = some (pos 5);
  cached = 2;
  lease = some (pos 5);
}

first_value : (next true true (new_sequence small_info none)).0 ≡ ok (pos 1)
unfolding next handed hand_out new_value candidate above_min below_max new_sequence has_value
first_value = refl
