-- ===== src/Files/World.antt =====
-- The file system that Native/src/Core/File.cpp calls: what stands at each path, and what the calls
-- answer. An exception keeps what has been done before it.
use ii_file_provider.Base.{
  ℕ, Bool, true, false, List, [], ◌∷◌, Option, Bytes, bytes_eq, Result, ok, err, if◌then◌else◌,
  drop,
}

-- FileCode.
pub data FileCode : Type 0 where
  io_failure limit_exceeded already_exists conflict invalid_path : FileCode

-- A FileError with its code, or another exception.
pub data Error : Type 0 where
  file_error : FileCode → Error
  other_error : Error

pub data Errno : Type 0 where
  exists no_entry cross_device other : Errno

-- What a call answers: success, an error, or that it has handled only so many bytes.
pub data Answer : Type 0 where
  done : Answer
  failed : Errno → Answer
  cut : ℕ → Answer

-- A file with its content and mode; a link with what is read through it.
pub data Node : Type 0 where
  regular : Bytes → ℕ → Node
  special : ℕ → Node
  directory : Node
  symlink : Option Bytes → Node

-- The calls of Presentation, which is a queue of previews.
pub data Preview : Type 0 where
  enqueue cancel_pending remove_companion : Bytes → Preview

abbrev pub Nodes : Type 0
Nodes = Bytes → Option Node

-- The answers of the calls to come (none left: success), and the random parts of names to come.
pub record World : Type 0 where
  pub nodes : Nodes
  pub answers : List Answer
  pub nonces : List Bytes
  pub previews : List Preview

abbrev pub Action : Type 0 → Type 0
Action A = World → Result Error A × World

unfoldable pub pure : {A : Type 0} → A → Action A
pure a w = (ok a, w)

unfoldable pub throw : {A : Type 0} → Error → Action A
throw e w = (err e, w)

abbrev pub after : {A B : Type 0} → (A → Action B) → Result Error A × World → Result Error B × World
after f (ok a, w) = f a w
after f (err e, w) = (err e, w)

infixl 5 ◌>>=◌ ◌>>◌
unfoldable pub ◌>>=◌ : {A B : Type 0} → Action A → (A → Action B) → Action B
◌>>=◌ m f w = after f (m w)

abbrev pub ◌>>◌ : {B : Type 0} → Action (Unit {0}) → Action B → Action B
m >> k = m >>= λ _. k

unfoldable pub require : Bool → Error → Action (Unit {0})
require true e = pure tt
require false e = throw e

abbrev pub with_nodes : World → Nodes → World
with_nodes w f = record { nodes = f; answers = w.answers; nonces = w.nonces; previews = w.previews }

abbrev pub changed : Nodes → Bytes → Option Node → Nodes
changed f p n q = if bytes_eq p q then n else f q

unfoldable pub put : Bytes → Option Node → Action (Unit {0})
put p n w = (ok tt, with_nodes w (changed w.nodes p n))

unfoldable pub node_at : Bytes → Action (Option Node)
node_at p w = (ok (w.nodes p), w)

abbrev pub first_answer : List Answer → Answer
first_answer [] = done
first_answer (a ∷ rest) = a

-- The answer of the next call.
unfoldable pub ask : Action Answer
ask w = (
  ok (first_answer w.answers),
  record { nodes = w.nodes; answers = drop 1 w.answers; nonces = w.nonces; previews = w.previews },
)

abbrev pub first_nonce : List Bytes → Bytes
first_nonce [] = []
first_nonce (n ∷ rest) = n

-- `nonce`.
unfoldable pub nonce : Action Bytes
nonce w = (
  ok (first_nonce w.nonces),
  record { nodes = w.nodes; answers = w.answers; nonces = drop 1 w.nonces; previews = w.previews },
)

unfoldable pub preview : Preview → Action (Unit {0})
preview p w = (
  ok tt,
  record { nodes = w.nodes; answers = w.answers; nonces = w.nonces; previews = p ∷ w.previews },
)

abbrev pub succeeds : Answer → Bool
succeeds (failed e) = false
succeeds _ = true

-- A call that throws if it fails.
unfoldable pub call : Error → Action (Unit {0})
call e = ask >>= λ a. require (succeeds a) e
