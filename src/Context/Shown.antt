-- ===== src/Context/Shown.antt =====
-- A builder from `new_builder` never panics, and shows the last messages in order.
use auxitalk.Base.{
  ℕ, ℤ, pos, pos_part, ltb_ℤ, [], ◌∷◌, some, ◌≡◌, ◌≤◌, arith, concat, length, last_of,
  if◌then◌else◌,
}
use auxitalk.Base.Lists.{length-last_of-le}
use auxitalk.Types.Session.{Session}
use auxitalk.Context.{new_builder, build, heading, message_lines}

-- how many messages a builder made with `n` shows at most
abbrev pub room : ℤ → ℕ
room n = if ltb_ℤ n (pos 1) then 20 else pos_part n

pub build-new_builder :
    (n : ℤ) (s : Session)
    → (build (new_builder n) s
        ≡ some (concat (heading s ∷ message_lines (last_of (room n) s.messages) ∷ [])))
      × (length (last_of (room n) s.messages) ≤ room n)
unfolding build new_builder
build-new_builder n s = (ground arith, length-last_of-le (room n) s.messages)
