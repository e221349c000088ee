-- ===== src/Files/Transfer/Tests.antt =====
-- Runs of publishFile and of an AtomicSave (Native/src/Filesystem/AtomicSave.cpp), and the theorems
-- at them.
use ii_file_provider.Base.{
  ◌+◌, ◌≤◌, List, none, some, true, false, [], ◌∷◌, codes, Bytes, bytes_eq, if◌then◌else◌, ◌≡◌,
  refl, ℕ,
}
use ii_file_provider.Files.World.{World, Nodes, regular, directory}
use ii_file_provider.Files.Paths.{Paths}
use ii_file_provider.Files.Publish.{PublishResult, published, refused}
use ii_file_provider.Files.Commit.{publish_file}
use ii_file_provider.Files.Save.{Save, Call, use_device, commit, cancel, run_save}
use ii_file_provider.Files.Once.{flag, run_save-once}
use ii_file_provider.Files.Transfer.{Settled, publish_file-Settled}

abbrev flat_paths : Paths
flat_paths = record {
  absolute = λ p. p;
  parent_path = λ p. codes "/d";
  current_path = codes "/d";
  weakly_canonical = λ p. p;
  extension = λ p. [];
  ancestors = λ p. codes "/d" ∷ [];
  created_mode = 420;
  same_file = λ p q. false;
}

abbrev normal_path : Bytes → Bytes
normal_path p = p

abbrev stage_name : Bytes
stage_name = codes "/d/s"

abbrev old_name : Bytes
old_name = codes "/d/o"

-- A staged file and an older one.
abbrev two_files : Nodes
two_files p =
    if bytes_eq p stage_name
    then some (regular (codes "new") 384)
    else if bytes_eq p old_name
    then some (regular (codes "old") 420)
    else none

abbrev two_world : World
two_world = record { nodes = two_files; answers = []; nonces = []; previews = [] }

run_overwrite :
    (publish_file flat_paths normal_path stage_name old_name true none two_world).0 ≡ published
unfolding publish_file ii_file_provider.Files.World.◌>>=◌ ii_file_provider.Files.World.require
    ii_file_provider.Base.Search.find_byte ii_file_provider.Files.World.pure
    ii_file_provider.Files.World.call ii_file_provider.Files.World.ask
    ii_file_provider.Files.World.node_at bytes_eq ii_file_provider.Files.World.put
    ii_file_provider.Files.Publish.move_node ii_file_provider.Files.World.preview
run_overwrite = refl

run_exclusive :
    (publish_file flat_paths normal_path stage_name old_name false none two_world).0
    ≡ refused (codes "already_exists")
unfolding publish_file ii_file_provider.Files.World.◌>>=◌ ii_file_provider.Files.World.require
    ii_file_provider.Base.Search.find_byte ii_file_provider.Files.World.pure
    ii_file_provider.Files.World.call ii_file_provider.Files.World.ask
    ii_file_provider.Files.World.node_at bytes_eq
run_exclusive = refl

run_absent :
    (publish_file flat_paths normal_path stage_name (codes "/d/n") false none two_world).0
    ≡ published
unfolding publish_file ii_file_provider.Files.World.◌>>=◌ ii_file_provider.Files.World.require
    ii_file_provider.Base.Search.find_byte ii_file_provider.Files.World.pure
    ii_file_provider.Files.World.call ii_file_provider.Files.World.ask
    ii_file_provider.Files.World.node_at bytes_eq ii_file_provider.Files.Staged.reserve
    ii_file_provider.Files.World.put ii_file_provider.Files.Publish.move_node
    ii_file_provider.Files.World.preview
run_absent = refl

publish_file-Settled_example :
    Settled two_files stage_name old_name true
      (publish_file flat_paths normal_path stage_name old_name true none two_world).0
      (publish_file flat_paths normal_path stage_name old_name true none two_world).1.nodes
publish_file-Settled_example =
    publish_file-Settled flat_paths normal_path stage_name old_name true none two_world refl

-- One file under two names: the staged name is still there.
abbrev linked_paths : Paths
linked_paths = record {
  absolute = λ p. p;
  parent_path = λ p. codes "/d";
  current_path = codes "/d";
  weakly_canonical = λ p. p;
  extension = λ p. [];
  ancestors = λ p. codes "/d" ∷ [];
  created_mode = 420;
  same_file = λ p q. true;
}

abbrev linked_files : Nodes
linked_files p = some (regular (codes "new") 384)

abbrev linked_world : World
linked_world = record { nodes = linked_files; answers = []; nonces = []; previews = [] }

abbrev linked_outcome : PublishResult × World
linked_outcome = publish_file linked_paths normal_path stage_name old_name true none linked_world

run_linked :
    (linked_outcome.0 ≡ published)
    × (linked_outcome.1.nodes stage_name ≡ some (regular (codes "new") 384))
unfolding publish_file ii_file_provider.Files.World.◌>>=◌ ii_file_provider.Files.World.require
    ii_file_provider.Base.Search.find_byte ii_file_provider.Files.World.pure
    ii_file_provider.Files.World.call ii_file_provider.Files.World.ask
    ii_file_provider.Files.World.node_at bytes_eq ii_file_provider.Files.World.put
    ii_file_provider.Files.Publish.move_node ii_file_provider.Files.World.preview
run_linked = (refl, refl)

abbrev open_save : Save
open_save = record {
  destination = old_name;
  stage = stage_name;
  path = stage_name;
  is_open = true;
  broken = false;
  permissions = none;
  cancelled = false;
  committed = false;
}

-- What stands at each path when the client has written to the staged file.
abbrev newer_files : Nodes
newer_files p = if bytes_eq p stage_name then some (regular (codes "newer") 384) else two_files p

-- A client that writes, commits, opens the device again on another file, and commits again.
abbrev two_commits : List Call
two_commits =
    use_device newer_files stage_name true false
    ∷ commit true
    ∷ use_device two_files stage_name true false
    ∷ commit true
    ∷ []

run_twice : (run_save flat_paths normal_path two_commits open_save two_world).0 ≡ 1
unfolding bytes_eq ii_file_provider.Files.Save.commit_save ii_file_provider.Files.World.◌>>=◌
    ii_file_provider.Files.World.call ii_file_provider.Files.World.ask
    ii_file_provider.Files.World.require ii_file_provider.Files.World.put
    ii_file_provider.Files.World.pure ii_file_provider.Base.Search.find_byte
    ii_file_provider.Files.World.node_at ii_file_provider.Files.Publish.move_node
    ii_file_provider.Files.World.preview
run_twice = refl

run_cancelled :
    (run_save flat_paths normal_path (cancel ∷ commit true ∷ []) open_save two_world).0 ≡ 0
unfolding ii_file_provider.Files.Save.commit_save
run_cancelled = refl

run_save-once_example :
    ((run_save flat_paths normal_path two_commits open_save two_world).0 ≤ 1)
    × (false ≡ true → (run_save flat_paths normal_path two_commits open_save two_world).0 ≡ 0)
    × ((run_save flat_paths normal_path two_commits open_save two_world).0 + 0
        ≡ flag (run_save flat_paths normal_path two_commits open_save two_world).1.0.committed)
run_save-once_example = run_save-once flat_paths normal_path two_commits open_save two_world
