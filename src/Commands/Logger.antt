-- ===== src/Commands/Logger.antt =====
-- internal/logger/logger.go. The file system, the clock and fmt are arguments; a file is known by a
-- number, and what is written is kept as a list of texts.
use auxitalk.Base.{
  ℕ, String, List, [], ◌∷◌, Option, none, some, Error, Result, ok, err, ◌==◌, nat_eq, string_eq,
  if◌then◌else◌, concat, ◌++◌,
}

-- the global variables: the open file, if there is one, and whether the writer writes to it too
pub record Logger : Type 0 where
  pub file : Option ℕ
  pub writer : Option ℕ  -- os.Stdout alone for `none`, with the file for `some`

abbrev pub new_logger : Logger
new_logger = record { file = none; writer = none }

-- Init; `made` is the error of MkdirAll and `opened` the answer of OpenFile.
unfoldable pub init :
    String → (made : Option Error) → (opened : Result ℕ) → Logger → Logger × Option Error
init path made opened l = if path == "" then (l, none) else (elim made [
  | some e ↦ (l, some e)
  | none ↦ elim opened [
    | err e ↦ (l, some e)
    | ok f ↦ (record { file = some f; writer = some f }, none)
  ]
])

-- Close; `closed` is the error of the file's Close.
unfoldable pub close : (closed : ℕ → Option Error) → Logger → Logger × Option Error
close closed l = elim l.file [
  | none ↦ (l, none)
  | some f ↦ (record { file = none; writer = none }, closed f)
]

-- What stands on the standard output and in the files.
pub record Written : Type 0 where
  pub stdout : List String
  pub files : ℕ → List String

abbrev append_at : ℕ → String → (ℕ → List String) → ℕ → List String
append_at f line files g = if f == g then files g ++ line ∷ [] else files g

-- Printf, for the time and the message as fmt formats them
unfoldable pub printf : (stamp message : String) → Logger → Written → Written
printf stamp message l w =
    let line = concat (stamp ∷ " " ∷ message ∷ []) in
    elim l.writer [
      | none ↦ record w { stdout = w.stdout ++ line ∷ [] }
      | some f ↦ record { stdout = w.stdout ++ line ∷ []; files = append_at f line w.files }
    ]
