-- ===== src/Sessions/Laws.antt =====
-- The manager holds valid sessions only, each under its own id.
use auxitalk.Base.{
  ◌⊎◌, String, [], ◌∷◌, ◌++◌, none, some, ok, err, ◌≡◌, ◌≢◌, arith, eq_iff, ◌==◌, string_eq,
  if◌then◌else◌, inl, inr, Option-cases,
}
use auxitalk.Base.Map.{lookup, put, IsMap, lookup-put, put-IsMap, lookup-delete, delete-IsMap}
use auxitalk.Types.Event.{Time}
use auxitalk.Types.Session.{Session, Message, validate_message}
use auxitalk.Types.Session
use auxitalk.Sessions.{Manager, create, get, update, remove, append_message, err_session_not_found}

pub record IsManager (m : Manager) : Type 0 where
  pub is_map : IsMap m
  pub keyed : (k : String) (s : Session) → lookup k m ≡ some s → k ≡ s.id
  pub valid : (k : String) (s : Session) → lookup k m ≡ some s → Session.validate s ≡ none

put-IsManager :
    (s : Session) (m : Manager) → Session.validate s ≡ none → IsManager m → IsManager (put s.id s m)
put-IsManager s m v h = record {
  is_map = put-IsMap s.id s m h.is_map;
  keyed = λ k t p. ground (arith, lookup-put s.id k s m, eq_iff s.id k, h.keyed k t);
  valid = λ k t p. ground (arith, lookup-put s.id k s m, eq_iff s.id k, h.valid k t);
}

touched-valid :
    (s : Session) (message : Message) (now : Time)
    → Session.validate s ≡ none
    → now ≢ 0
    → Session.validate (record s { messages = s.messages ++ message ∷ []; updated_at = now }) ≡ none
unfolding Session.validate
touched-valid s message now v n = ground arith

create-IsManager : (s : Session) (m : Manager) → IsManager m → IsManager (create s m).0
unfolding create
create-IsManager s m h = elim (Option-cases (Session.validate s)) [
  | inr (e, p) ↦ rw (p, create) h
  | inl p ↦ elim (Option-cases (lookup s.id m)) [
    | inl f ↦ rw (p, f, create) (put-IsManager s m p h)
    | inr (t, f) ↦ rw (p, f, create) h
  ]
]

update-IsManager : (s : Session) (m : Manager) → IsManager m → IsManager (update s m).0
unfolding update
update-IsManager s m h = elim (Option-cases (Session.validate s)) [
  | inr (e, p) ↦ rw (p, update) h
  | inl p ↦ elim (Option-cases (lookup s.id m)) [
    | inl f ↦ rw (p, f, update) h
    | inr (t, f) ↦ rw (p, f, update) (put-IsManager s m p h)
  ]
]

remove-IsManager : (id : String) (m : Manager) → IsManager m → IsManager (remove id m)
unfolding remove
remove-IsManager id m h = record {
  is_map = delete-IsMap id m h.is_map;
  keyed = λ k t p. ground (arith, lookup-delete id k m h.is_map, h.keyed k t);
  valid = λ k t p. ground (arith, lookup-delete id k m h.is_map, h.valid k t);
}

append_message-IsManager :
    (now : Time) (id : String) (message : Message) (m : Manager)
    → now ≢ 0
    → IsManager m
    → IsManager (append_message now id message m).0
unfolding append_message
append_message-IsManager now id message m n h = elim (Option-cases (validate_message message)) [
  | inr (e, p) ↦ rw (p, append_message) h
  | inl p ↦ elim (Option-cases (lookup id m)) [
    | inl f ↦ rw (p, f, append_message) h
    | inr (s, f) ↦
        rw (p, f, append_message)
          (rw (h.keyed id s f) (
            put-IsManager (record s { messages = s.messages ++ message ∷ []; updated_at = now }) m
              (touched-valid s message now (h.valid id s f) n) h))
  ]
]

-- Every operation keeps the sessions valid, each under its own id and no id twice, provided that
-- the clock never reads the zero time.
pub manager-IsManager :
    (s : Session) (now : Time) (id : String) (message : Message) (m : Manager)
    → now ≢ 0
    → IsManager m
    → IsManager (create s m).0
      × IsManager (update s m).0
      × IsManager (remove id m)
      × IsManager (append_message now id message m).0
manager-IsManager s now id message m n h = (
  create-IsManager s m h,
  update-IsManager s m h,
  remove-IsManager id m h,
  append_message-IsManager now id message m n h,
)

-- Creating a session succeeds exactly when it is valid and its id is free, and then a lookup of that
-- id finds it and one of any other id finds what it found before; otherwise nothing changes.
get-create :
    (s : Session) (j : String) (m : Manager)
    → (((create s m).1 ≡ none)
        × (Session.validate s ≡ none)
        × (get s.id m ≡ err err_session_not_found)
        × (get j (create s m).0 ≡ (if s.id == j then ok s else get j m)))
      ⊎ (((create s m).1 ≢ none)
          × ((Session.validate s ≢ none) ⊎ (get s.id m ≢ err err_session_not_found))
          × ((create s m).0 ≡ m))
unfolding create get
get-create s j m = ground (arith, lookup-put s.id j s m)
