-- ===== src/Core/Pending/Tests.antt =====
-- src/core.rs: a pending playback of two peers.
use link_ear.Prelude.{String, ◌≡◌, refl, false, [], ◌∷◌, string_eq, nat_eq, bool_eq, option_eq}
use link_ear.Prelude.HashSet.{HashSet, contains, insert, is_subset}
use link_ear.Core.Pending.{new, mark_ready, is_ready}
use link_ear.Core.Samples.{playing}
use link_ear.Core.Pending.Laws.{mark_all}

abbrev peers : HashSet String
peers = "alice" ∷ "bob" ∷ []

not_ready : is_ready (mark_all (new playing peers 9) ("bob" ∷ "carol" ∷ "bob" ∷ [])) ≡ false
unfolding is_ready new mark_ready is_subset insert contains
not_ready = refl
