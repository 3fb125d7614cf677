-- ===== src/Events/Bus/History.antt =====
-- The history is the tail of the accepted events, and never longer than its limit.
use auxitalk.Base.{
  ℕ, ◌-◌, ◌≤◌, ℤ, pos_part, true, false, List, [], ◌∷◌, ◌++◌, ◌≡◌, refl, sym, ap, ◌∙◌, arith,
  if◌then◌else◌, length, last_of, inl, inr, Bool-cases,
}
use auxitalk.Base.Lists.{length-last_of-le, last_of-append, last_of-drop, drop-nil}
use mathlib.Core.List.{append_assoc, append-nil}
use auxitalk.Types.Event.{Event}
use auxitalk.Events.Bus.{
  Bus, append_history, record_event, restore_loop, restore_history, not_positive, new,
}

-- The bus after it has recorded some events in turn.
pub record_all : {H : Type 0} → List Event → Bus H → Bus H
record_all [] b = b
record_all (e ∷ es) b = record_all es (record_event e b)

-- What the history should be: the last events up to the limit, none for a limit that is not positive.
abbrev pub kept : ℤ → List Event → List Event
kept limit es = if not_positive limit then [] else last_of (pos_part limit) es

last_of-last_of : (n : ℕ) (es : List Event) → last_of n (last_of n es) ≡ last_of n es
last_of-last_of n es =
    ap (last_of n) (sym (append-nil (last_of n es)))
    ∙ last_of-append n es []
    ∙ ap (last_of n) (append-nil es)

restore_loop-last_of :
    (limit : ℤ) (h es : List Event)
    → last_of (pos_part limit) h ≡ h
    → restore_loop limit h es ≡ last_of (pos_part limit) (h ++ es)
unfolding restore_loop append_history
restore_loop-last_of limit h [] c = sym (ap (last_of (pos_part limit)) (append-nil h) ∙ c)
restore_loop-last_of limit h (e ∷ es) c =
    restore_loop-last_of limit (append_history limit h e) es (last_of-last_of n (h ++ e ∷ []))
    ∙ last_of-append n (h ++ e ∷ []) es
    ∙ ap (last_of n) (append_assoc h (e ∷ []) es)
  where
    n : ℕ
    n = pos_part limit

module _ {H : Type 0} where
  history_limit-record :
      (e : Event) (b : Bus H) → (record_event e b).history_limit ≡ b.history_limit
  unfolding record_event
  history_limit-record e b = ground arith

  record_all-loop :
      (es : List Event) (b : Bus H)
      → not_positive b.history_limit ≡ false
      → (record_all es b).history ≡ restore_loop b.history_limit b.history es
  unfolding record_all restore_loop
  record_all-loop [] b h = refl
  record_all-loop (e ∷ es) b h =
      rw
        (
          record_all-loop es (record_event e b) (rw (history_limit-record e b) h),
          history_limit-record e b,
        )
        (unfold record_event in rw h)

  record_all_off :
      (es : List Event) (b : Bus H) → not_positive b.history_limit ≡ true → record_all es b ≡ b
  unfolding record_all record_event
  record_all_off [] b h = refl
  record_all_off (e ∷ es) b h = rw (h, record_event) (record_all_off es b h)

  restore_off :
      (es : List Event) (b : Bus H) → not_positive b.history_limit ≡ true → restore_history es b ≡ b
  unfolding restore_history
  restore_off es b h = rw h

  restore_on :
      (es : List Event) (b : Bus H)
      → not_positive b.history_limit ≡ false
      → restore_history es b ≡ record b { history = restore_loop b.history_limit [] es }
  unfolding restore_history
  restore_on es b h = rw h

last_of-nil : (n : ℕ) → last_of {A = Event} n [] ≡ []
last_of-nil n = last_of-drop n [] ∙ drop-nil (0 - n)

restore_loop_twice :
    (limit : ℤ) (es fs : List Event)
    → restore_loop limit (restore_loop limit [] es) fs ≡ last_of (pos_part limit) (es ++ fs)
restore_loop_twice limit es fs =
    rw (restore_loop-last_of limit [] es (last_of-nil (pos_part limit))) (
      restore_loop-last_of limit (last_of (pos_part limit) es) fs
        (last_of-last_of (pos_part limit) es)
      ∙ last_of-append (pos_part limit) es fs)

-- The history of a new bus that restores some events and then records others.
abbrev pub replayed : Type 0 → ℤ → ℤ → List Event → List Event → List Event
replayed H timeout limit es fs =
    (record_all fs (restore_history es (new {H = H} timeout limit))).history

module _ (H : Type 0) (timeout limit : ℤ) (es fs : List Event) where
  replayed-kept : replayed H timeout limit es fs ≡ kept limit (es ++ fs)
  unfolding new
  replayed-kept = elim (Bool-cases (not_positive limit)) [
    | inl off ↦
        ap (λ (c : Bus H). (record_all fs c).history) (restore_off es b off)
        ∙ ap (λ (c : Bus H). c.history) (record_all_off fs b off)
        ∙ rw off
    | inr on ↦
        ap (λ (c : Bus H). (record_all fs c).history) (restore_on es b on)
        ∙ record_all-loop fs (record b { history = restore_loop limit [] es }) on
        ∙ restore_loop_twice limit es fs
        ∙ rw on
  ]
    where
      b : Bus H
      b = new timeout limit

  length-kept-le : (xs : List Event) → length (kept limit xs) ≤ pos_part limit
  length-kept-le xs = elim (Bool-cases (not_positive limit)) [
    | inl off ↦ rw off (omega arith)
    | inr on ↦ rw on (length-last_of-le (pos_part limit) xs)
  ]

  -- A bus that is made with a limit, restores some events and then records others holds the last
  -- events of both, up to the limit and in order; with a limit that is not positive it holds none.
  -- So it never holds more than the limit.
  pub history-kept :
      (replayed H timeout limit es fs ≡ kept limit (es ++ fs))
      × (length (replayed H timeout limit es fs) ≤ pos_part limit)
  history-kept = (replayed-kept, rw replayed-kept (length-kept-le (es ++ fs)))
