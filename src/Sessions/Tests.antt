-- ===== src/Sessions/Tests.antt =====
-- Runs of the manager on a sample session.
use auxitalk.Base.{[], ◌∷◌, ◌≡◌, refl, arith, string_eq, eq_iff}
use auxitalk.Base.Map.{lookup}
use auxitalk.Types.Samples.{talk, talk_valid, hello}
use auxitalk.Sessions.{Manager, create, update, remove, list, append_message}
use auxitalk.Sessions.Laws.{IsManager, manager-IsManager}

abbrev one : Manager
one = ("s1", talk) ∷ []

one-IsManager : IsManager one
unfolding lookup
one-IsManager = record {
  is_map = (refl, tt);
  keyed = λ k s p. ground (arith, eq_iff "s1" k);
  valid = λ k s p. ground (arith, eq_iff "s1" k, talk_valid);
}

manager-IsManager_example :
    IsManager (create (record talk { id = "s2" }) one).0
    × IsManager (update (record talk { id = "s2" }) one).0
    × IsManager (remove "s1" one)
    × IsManager (append_message 9 "s1" hello one).0
manager-IsManager_example =
    manager-IsManager (record talk { id = "s2" }) 9 "s1" hello one (omega arith) one-IsManager

all_listed : list (λ m. m) one ≡ talk ∷ []
unfolding list
all_listed = refl
