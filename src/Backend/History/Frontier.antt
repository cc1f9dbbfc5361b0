-- ===== src/Backend/History/Frontier.antt =====
-- src/backend.rs: what history_frontier says that a peer has seen.
use link_ear.Prelude.{
  ℕ, max, String, ◌≡◌, sym, ap, ◌∙◌, inl, inr, Bool, true, false, ◌||◌, some, List, [], ◌∷◌, arith,
  leb, Bool-cases, Option-cases, is_some, is_some_and, ◌==◌, ◌!=◌, string_eq, nat_eq, bool_eq,
  option_eq,
}
use link_ear.Prelude.HashMap
use link_ear.Prelude.HashMap.{HashMap, get-insert, get-insert_self}
use link_ear.Prelude.Perm.{In, here, there}
use link_ear.Core.Types.{ChatRecord}
use link_ear.Backend.History.{
  chat_record_actor_key, chat_depends_on, and_modify, frontier_from, history_frontier,
}

-- The frontier has a number for the key, and it is at least this one.
abbrev reaches : HashMap String ℕ → String → ℕ → Bool
reaches frontier key seq = is_some_and (HashMap.get frontier key) (λ latest. leb seq latest)

and_modify-reaches_self :
    (frontier : HashMap String ℕ) (key : String) (seq : ℕ)
    → reaches (and_modify frontier key seq) key seq ≡ true
and_modify-reaches_self frontier key seq = elim (Option-cases (HashMap.get frontier key)) [
  | inl e ↦ rw (and_modify, e) (ground (arith, get-insert_self frontier key seq))
  | inr l ↦ rw (and_modify, l.1) (ground (arith, get-insert_self frontier key (max l.0 seq)))
]

and_modify-reaches :
    (frontier : HashMap String ℕ) (key other : String) (seq n : ℕ)
    → reaches frontier key n ≡ true
    → reaches (and_modify frontier other seq) key n ≡ true
and_modify-reaches frontier key other seq n h = elim (Option-cases (HashMap.get frontier other)) [
  | inl e ↦
      rw (and_modify, e)
        (ground (arith, e, get-insert frontier other key seq, string_eq.beq_iff other key))
  | inr l ↦
      rw (and_modify, l.1)
        (ground
          (arith, l.1, get-insert frontier other key (max l.0 seq), string_eq.beq_iff other key))
]

frontier_from-reaches :
    (frontier : HashMap String ℕ) (rs : List ChatRecord) (key : String) (n : ℕ)
    → reaches frontier key n ≡ true
    → reaches (frontier_from frontier rs) key n ≡ true
frontier_from-reaches frontier [] key n h = h
frontier_from-reaches frontier (r ∷ rs) key n h = elim (Option-cases (chat_record_actor_key r)) [
  | inl e ↦ rw (frontier_from, e) (frontier_from-reaches frontier rs key n h)
  | inr l ↦
      rw (frontier_from, l.1)
        (frontier_from-reaches (and_modify frontier l.0 r.seq) rs key n
          (and_modify-reaches frontier key l.0 r.seq n h))
]

frontier_from-In :
    (frontier : HashMap String ℕ) (rs : List ChatRecord) (r : ChatRecord) (key : String)
    → In r rs
    → chat_record_actor_key r ≡ some key
    → reaches (frontier_from frontier rs) key r.seq ≡ true
frontier_from-In frontier [] r key i h = elim i [ ]
frontier_from-In frontier (x ∷ rs) r key (here e) h =
    rw (frontier_from, sym (ap chat_record_actor_key e) ∙ h)
      (frontier_from-reaches (and_modify frontier key x.seq) rs key r.seq (
        ap (reaches (and_modify frontier key x.seq) key) (ap (λ s. s.seq) e)
        ∙ and_modify-reaches_self frontier key x.seq))
frontier_from-In frontier (x ∷ rs) r key (there i) h =
    elim (Option-cases (chat_record_actor_key x)) [
      | inl e ↦ rw (frontier_from, e) (frontier_from-In frontier rs r key i h)
      | inr l ↦
          rw (frontier_from, l.1) (frontier_from-In (and_modify frontier l.0 x.seq) rs r key i h)
    ]

key_of_seq :
    (r : ChatRecord) (key : String)
    → chat_record_actor_key r ≡ some key
    → ((r.seq == 0) || (r.peer_id == "")) ≡ false
unfolding chat_record_actor_key
key_of_seq r key h = elim (Bool-cases ((r.seq == 0) || (r.peer_id == ""))) [
  | inl y ↦ absurd (ground arith)
  | inr n ↦ n
]

-- A message that carries the frontier of a history depends on every record of it that has a sender and a
-- number, unless it has the same id.
pub history_frontier-chat_depends_on :
    (history : List ChatRecord) (m r : ChatRecord)
    → m.causal_frontier ≡ history_frontier history
    → In r history
    → is_some (chat_record_actor_key r) ≡ true
    → chat_depends_on m r ≡ (m.id != r.id)
unfolding chat_depends_on history_frontier
history_frontier-chat_depends_on history m r f i k = elim (Option-cases (chat_record_actor_key r)) [
  | inl e ↦ absurd (ground (arith, e))
  | inr l ↦
      let seen =
        ap (λ g. reaches g l.0 r.seq) f ∙ frontier_from-In HashMap.new history r l.0 i l.1 in
      let numbered = key_of_seq r l.0 l.1 in rw l.1 (ground (arith, numbered, seen))
]
