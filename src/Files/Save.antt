-- ===== src/Files/Save.antt =====
-- AtomicSave of Native/src/Filesystem/AtomicSave.cpp behind its `open`: `cancel`, `setPermissions`,
-- `commit`, and the use of its device.
use ii_file_provider.Base.{
  ℕ, suc, ◌%◌, Bool, true, false, not, ◌||◌, List, [], ◌∷◌, Option, some, Bytes, Result, ok, err,
  if◌then◌else◌,
}
use ii_file_provider.Files.World.{
  Error, other_error, failed, done, Answer, Node, Nodes, World, with_nodes, Action, ◌>>◌, put, ask,
  call,
}
use ii_file_provider.Files.Paths.{Paths}
use ii_file_provider.Files.Publish.{PublishResult, published, refused, with_mode}
use ii_file_provider.Files.Staged.{discard}
use ii_file_provider.Files.Commit.{publish_file}

-- AtomicSave::Impl without its lease; of the device, the file that it has open, whether it has one,
-- and whether it has failed.
pub record Save : Type 0 where
  pub destination : Bytes
  pub stage : Bytes
  pub path : Bytes
  pub is_open : Bool
  pub broken : Bool
  pub permissions : Option ℕ
  pub cancelled : Bool
  pub committed : Bool

-- The client's calls; `use_device` is any use of the device, which is the client's to write to, close
-- and open: by what stands at each path then, which file the device has, whether it is open, and
-- whether it has failed.
pub data Call : Type 0 where
  use_device : Nodes → Bytes → Bool → Bool → Call
  set_permissions : ℕ → Call
  cancel : Call
  commit : Bool → Call

abbrev pub cleared : Save → Save
cleared s = record {
  destination = s.destination;
  stage = [];
  path = s.path;
  is_open = false;
  broken = s.broken;
  permissions = s.permissions;
  cancelled = s.cancelled;
  committed = s.committed;
}

abbrev pub remove_stage : Bytes → World → World
remove_stage [] w = w
remove_stage (c ∷ cs) w = (discard (c ∷ cs) w).1

-- `discard`, which closes the device whatever `close` answers.
abbrev pub discard_save : Save → World → Save × World
discard_save s w = (cleared s, remove_stage s.stage w)

abbrev pub with_cancelled : Save → Save
with_cancelled s = record {
  destination = s.destination;
  stage = s.stage;
  path = s.path;
  is_open = s.is_open;
  broken = s.broken;
  permissions = s.permissions;
  cancelled = true;
  committed = s.committed;
}

abbrev pub with_committed : Save → Save
with_committed s = record {
  destination = s.destination;
  stage = [];
  path = s.path;
  is_open = false;
  broken = s.broken;
  permissions = s.permissions;
  cancelled = s.cancelled;
  committed = true;
}

abbrev pub with_permissions : Save → ℕ → Save
with_permissions s mode = record {
  destination = s.destination;
  stage = s.stage;
  path = s.path;
  is_open = s.is_open;
  broken = s.broken;
  permissions = some mode;
  cancelled = s.cancelled;
  committed = s.committed;
}

abbrev pub with_device : Save → Bytes → Bool → Bool → Save
with_device s path opened fails = record {
  destination = s.destination;
  stage = s.stage;
  path = path;
  is_open = opened;
  broken = fails;
  permissions = s.permissions;
  cancelled = s.cancelled;
  committed = s.committed;
}

-- Whether a call has reported a publication, and what it leaves.
abbrev pub Reply : Type 0
Reply = Bool × (Save × World)

abbrev pub quiet : Save × World → Reply
quiet p = (false, p)

module _ (paths : Paths) (lexically_normal : Bytes → Bytes) where
  -- The `try` block, behind `flush` and `close`.
  abbrev pub publish_stage : Save → Bool → Action PublishResult
  publish_stage s overwrite w =
      let outcome =
        publish_file paths lexically_normal s.stage s.destination overwrite s.permissions w in
      (ok (outcome.0), outcome.1)

  unfoldable pub commit_try : Save → Bool → Action PublishResult
  unfolding publish_file
  commit_try s overwrite = do call other_error; call other_error; publish_stage s overwrite

  abbrev pub committed_by : Save → Result Error PublishResult × World → Reply
  committed_by s (ok published, w) = (true, (with_committed s, w))
  committed_by s (ok (refused suffix), w) = quiet (discard_save s w)
  committed_by s (err e, w) = quiet (discard_save s w)

  unfoldable pub commit_save : Save → Bool → World → Reply
  unfolding commit_try
  commit_save s overwrite w =
      if s.committed
      then quiet (s, w)
      else if s.cancelled || (not s.is_open || s.broken)
      then quiet (discard_save s w)
      else committed_by s (commit_try s overwrite w)

  -- `fchmod` of the device, which throws if it fails and leaves the permissions then; it takes the last
  -- nine bits of the mode.
  abbrev pub permitted_by : Save → ℕ → Answer → Option Node → World → Reply
  permitted_by s mode (failed e) n w = quiet (s, w)
  permitted_by s mode _ n w =
      quiet (with_permissions s mode, (put s.path (with_mode n (mode % 512)) w).1)

  abbrev pub next_answer : World → Answer
  next_answer w = elim w.answers [ [] ↦ done | a ∷ rest ↦ a ]

  abbrev pub spent : World → World
  spent w = (ask w).1

  abbrev pub set_permissions_save : Save → ℕ → World → Reply
  set_permissions_save s mode w =
      if s.is_open
      then permitted_by s mode (next_answer w) (w.nodes s.path) (spent w)
      else quiet (s, w)

  abbrev pub use_save : Save → Nodes → Bytes → Bool → Bool → World → Reply
  use_save s nodes path opened fails w = quiet (with_device s path opened fails, with_nodes w nodes)

  abbrev pub perform : Call → Save → World → Reply
  perform (use_device nodes path opened fails) s w = use_save s nodes path opened fails w
  perform (set_permissions mode) s w = set_permissions_save s mode w
  perform cancel s w = quiet (discard_save (with_cancelled s) w)
  perform (commit overwrite) s w = commit_save s overwrite w

  abbrev pub counted : Bool → ℕ → ℕ
  counted true n = suc n
  counted false n = n

  -- How many publications a sequence of calls has reported, and what it leaves.
  abbrev pub run_from : List Call → Reply → ℕ × (Save × World)
  run_from [] reply = (counted reply.0 0, reply.1)
  run_from (c ∷ cs) reply =
      let rest = run_from cs (perform c (reply.1.0) (reply.1.1)) in
      (counted reply.0 (rest.0), rest.1)

  abbrev pub run_save : List Call → Save → World → ℕ × (Save × World)
  run_save cs s w = run_from cs (quiet (s, w))
