-- ===== src/Files/Tests.antt =====
-- Runs of the model of Native/src/Core/File.cpp, and its theorems at concrete inputs.
use ii_file_provider.Base.{
  arith, bytes_eq, if◌then◌else◌, bytes_eq, ◌≡◌, Bytes, if◌then◌else◌, List, refl, none, some, true,
  false, ok, err, [], ◌∷◌, codes,
}
use ii_file_provider.Files.World.{
  already_exists, conflict, io_failure, io_failure, already_exists, conflict, Answer, file_error,
  World, Nodes, done, cut, failed, regular, directory, other,
}
use ii_file_provider.Files.Staged.{stage_path, reserve_stage}
use ii_file_provider.Files.Reads.{read}
use ii_file_provider.Files.Paths.{is_name, Paths}
use ii_file_provider.Files.Frame.{Replaced, Grown}
use ii_file_provider.Files.Outcomes.{Ends}
use ii_file_provider.Files.Writes.{write, create, update}
use ii_file_provider.Files.Overwrite.{write-Replaced}
use ii_file_provider.Files.Exclusive.{Created, create-Created}
use ii_file_provider.Files.Guarded.{Updated, update-Updated}
use ii_file_provider.Files.Progress.{reserve_stage-Returns, write-read, calm}

-- Every path is taken for absolute, and `/d` for the parent of every path.
abbrev some_paths : Paths
some_paths = record {
  absolute = λ p. p;
  parent_path = λ p. codes "/d";
  current_path = codes "/d";
  weakly_canonical = λ p. p;
  extension = λ p. [];
  ancestors = λ p. codes "/d" ∷ [];
  created_mode = 420;
  same_file = λ p q. false;
}

abbrev kept_file : Bytes
kept_file = codes "/d/kept"

abbrev new_file : Bytes
new_file = codes "/d/new"

-- A file and its directory.
abbrev some_nodes : Nodes
some_nodes p =
    if bytes_eq p kept_file
    then some (regular (codes "old") 384)
    else if bytes_eq p (codes "/d")
    then some directory
    else none

abbrev some_world : List Answer → World
some_world answers = record {
  nodes = some_nodes;
  answers = answers;
  nonces = codes "1-2" ∷ codes "3-4" ∷ [];
  previews = [];
}

-- Only the staged file's writing, the eighth call or so, is cut short.
abbrev short_write : List Answer
short_write = done ∷ done ∷ done ∷ done ∷ cut 1 ∷ []

run_write : (write some_paths kept_file (codes "new") (some_world [])).0 ≡ ok tt
unfolding write ii_file_provider.Files.World.◌>>=◌ ii_file_provider.Files.Staged.staged_file
    ii_file_provider.Files.World.require ii_file_provider.Base.Search.find_byte
    ii_file_provider.Files.World.pure ii_file_provider.Files.World.ask
    ii_file_provider.Files.World.node_at bytes_eq ii_file_provider.Files.World.call
    ii_file_provider.Files.World.put ii_file_provider.Files.World.nonce
    ii_file_provider.Files.Staged.write_staged ii_file_provider.Files.Paths.canonical_parent
    ii_file_provider.Files.World.preview
run_write = refl

run_create :
    (create some_paths kept_file (codes "new") (some_world [])).0 ≡ err (file_error already_exists)
unfolding create ii_file_provider.Files.World.◌>>=◌ ii_file_provider.Files.Paths.checked_path
    ii_file_provider.Files.World.require ii_file_provider.Base.Search.find_byte
    ii_file_provider.Files.World.pure ii_file_provider.Files.Staged.staged_file
    ii_file_provider.Files.World.ask ii_file_provider.Files.World.node_at bytes_eq
    ii_file_provider.Files.World.call ii_file_provider.Files.World.put
    ii_file_provider.Files.World.nonce ii_file_provider.Files.Staged.write_staged
    ii_file_provider.Files.World.throw
run_create = refl

run_create_new : (create some_paths new_file (codes "new") (some_world [])).0 ≡ ok tt
unfolding create ii_file_provider.Files.World.◌>>=◌ ii_file_provider.Files.Paths.checked_path
    ii_file_provider.Files.World.require ii_file_provider.Base.Search.find_byte
    ii_file_provider.Files.World.pure ii_file_provider.Files.Staged.staged_file
    ii_file_provider.Files.World.ask ii_file_provider.Files.World.node_at bytes_eq
    ii_file_provider.Files.World.call ii_file_provider.Files.World.put
    ii_file_provider.Files.World.nonce ii_file_provider.Files.Staged.write_staged
    ii_file_provider.Files.World.preview
run_create_new = refl

run_conflict :
    (update some_paths kept_file (codes "odd") (codes "new") (some_world [])).0
    ≡ err (file_error conflict)
unfolding update ii_file_provider.Files.World.◌>>=◌ ii_file_provider.Files.Paths.checked_path
    ii_file_provider.Files.World.require ii_file_provider.Base.Search.find_byte
    ii_file_provider.Files.World.pure ii_file_provider.Files.World.ask
    ii_file_provider.Files.World.node_at bytes_eq ii_file_provider.Files.Reads.read
    ii_file_provider.Files.World.call ii_file_provider.Files.World.throw
run_conflict = refl

run_longer :
    (update some_paths kept_file (codes "o") (codes "new") (some_world [])).0
    ≡ err (file_error conflict)
unfolding update ii_file_provider.Files.World.◌>>=◌ ii_file_provider.Files.Paths.checked_path
    ii_file_provider.Files.World.require ii_file_provider.Base.Search.find_byte
    ii_file_provider.Files.World.pure ii_file_provider.Files.World.ask
    ii_file_provider.Files.World.node_at bytes_eq ii_file_provider.Files.Reads.read
    ii_file_provider.Files.World.call ii_file_provider.Files.World.throw
run_longer = refl

run_short :
    (write some_paths kept_file (codes "new") (some_world short_write)).0
    ≡ err (file_error io_failure)
unfolding write ii_file_provider.Files.World.◌>>=◌ ii_file_provider.Files.Staged.staged_file
    ii_file_provider.Files.World.require ii_file_provider.Base.Search.find_byte
    ii_file_provider.Files.World.pure ii_file_provider.Files.World.ask
    ii_file_provider.Files.World.node_at bytes_eq ii_file_provider.Files.World.call
    ii_file_provider.Files.World.put ii_file_provider.Files.World.nonce
    ii_file_provider.Files.Staged.write_staged ii_file_provider.Files.World.throw
run_short = refl

write-Replaced_example :
    Ends
      (λ _. Replaced some_nodes kept_file (codes "new"))
      (λ e. Grown some_nodes)
      (write some_paths kept_file (codes "new") (some_world short_write))
write-Replaced_example = write-Replaced some_paths kept_file (codes "new") (some_world short_write)

create-Created_example :
    Ends
      (λ _. Created some_nodes new_file (codes "new"))
      (λ e. Grown some_nodes)
      (create some_paths new_file (codes "new") (some_world []))
create-Created_example = create-Created some_paths new_file (codes "new") (some_world [])

update-Updated_example :
    Ends
      (λ _. Updated some_nodes some_paths kept_file (codes "old") (codes "new"))
      (λ e. Grown some_nodes)
      (update some_paths kept_file (codes "old") (codes "new") (some_world []))
update-Updated_example =
    update-Updated some_paths (λ p. refl) kept_file (codes "old") (codes "new") (some_world [])

-- The first nonce's path is taken.
abbrev crowded : Nodes
crowded p = if bytes_eq p (codes "/d/.iifile-stage-1-2") then some directory else some_nodes p

free_second : crowded (stage_path some_paths new_file (codes "3-4")) ≡ none
unfolding bytes_eq
free_second = refl

named : is_name kept_file ≡ true
unfolding ii_file_provider.Base.Search.find_byte
named = refl

reserve_stage-Returns_example :
    (s : Bytes) × ((reserve_stage some_paths 128 new_file
        (calm crowded (codes "1-2" ∷ codes "3-4" ∷ []) [])).0
      ≡ ok s)
reserve_stage-Returns_example =
    reserve_stage-Returns some_paths new_file crowded [] (codes "1-2" ∷ codes "3-4" ∷ []) 128 1
      (omega arith) (omega arith) free_second

abbrev written_world : World
written_world = (write some_paths kept_file (codes "new") (some_world [])).1

written : write some_paths kept_file (codes "new") (some_world []) ≡ (ok tt, written_world)
unfolding write ii_file_provider.Files.World.◌>>=◌ ii_file_provider.Files.Staged.staged_file
    ii_file_provider.Files.World.require ii_file_provider.Base.Search.find_byte
    ii_file_provider.Files.World.pure ii_file_provider.Files.World.ask
    ii_file_provider.Files.World.node_at bytes_eq ii_file_provider.Files.World.call
    ii_file_provider.Files.World.put ii_file_provider.Files.World.nonce
    ii_file_provider.Files.Staged.write_staged ii_file_provider.Files.Paths.canonical_parent
    ii_file_provider.Files.World.preview
written = refl

write-read_example :
    (read some_paths kept_file 3
      (calm written_world.nodes written_world.nonces written_world.previews)).0
    ≡ ok (codes "new")
write-read_example =
    write-read some_paths kept_file (codes "new") 3 (some_world []) written_world written named
      (omega arith) (omega arith)
