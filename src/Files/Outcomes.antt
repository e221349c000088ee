-- ===== src/Files/Outcomes.antt =====
-- Triples for the actions of Files/World.antt: what a precondition on the files gives when an
-- action has returned, and when it has thrown.
use ii_file_provider.Base.{
  ◌≡◌, refl, Bool, true, false, Bool-cases, inl, inr, Option, Bytes, Result, ok, err, if◌then◌else◌,
}
use ii_file_provider.Files.World.{
  Error, Answer, Node, Nodes, World, Action, pure, throw, after, ◌>>=◌, ◌>>◌, require, changed, put,
  node_at, ask, first_answer, nonce, first_nonce, Preview, preview, succeeds, call,
}

-- What holds of a returned value or a thrown error, and of the files that stand then.
abbrev pub Ends :
    {A : Type 0} → (A → Nodes → Type 0) → (Error → Nodes → Type 0) → Result Error A × World → Type 0
Ends Post Fail (ok a, w) = Post a w.nodes
Ends Post Fail (err e, w) = Fail e w.nodes

pub record Triple {A : Type 0} (Pre : Nodes → Type 0) (m : Action A) (Post : A → Nodes → Type 0)
    (Fail : Error → Nodes → Type 0) : Type 0 where
  pub ends : (w : World) → Pre w.nodes → Ends Post Fail (m w)

module _ {A B : Type 0} (Post : B → Nodes → Type 0) (Fail : Error → Nodes → Type 0) where
  Ends-after :
      (Mid : A → Nodes → Type 0) (f : A → Action B) (o : Result Error A × World)
      → Ends Mid Fail o
      → ((a : A) (w : World) → Mid a w.nodes → Ends Post Fail (f a w))
      → Ends Post Fail (after f o)
  Ends-after Mid f (ok a, w) h k = k a w h
  Ends-after Mid f (err e, w) h k = h

module _ {A B : Type 0} {Post : B → Nodes → Type 0} {Fail : Error → Nodes → Type 0} where
  pub Triple-bind :
      {Pre : Nodes → Type 0} (Mid : A → Nodes → Type 0) {m : Action A} {f : A → Action B}
      → Triple Pre m Mid Fail
      → ((a : A) → Triple (Mid a) (f a) Post Fail)
      → Triple Pre (m >>= f) Post Fail
  unfolding ◌>>=◌
  Triple-bind Mid {m} {f} h k = record {
    ends = λ w x. Ends-after Post Fail Mid f (m w) (h.ends w x) (λ a. (k a).ends);
  }

module _ {A : Type 0} {Pre : Nodes → Type 0} {Post : A → Nodes → Type 0}
    {Fail : Error → Nodes → Type 0} where
  pub Triple-if :
      (test : Bool) {m n : Action A}
      → (test ≡ true → Triple Pre m Post Fail)
      → (test ≡ false → Triple Pre n Post Fail)
      → Triple Pre (if test then m else n) Post Fail
  Triple-if true x y = x refl
  Triple-if false x y = y refl

  pub Triple-pure : (a : A) → ((g : Nodes) → Pre g → Post a g) → Triple Pre (pure a) Post Fail
  unfolding pure
  Triple-pure a h = record { ends = λ w x. h w.nodes x }

  pub Triple-throw :
      (e : Error) → ((g : Nodes) → Pre g → Fail e g) → Triple Pre (throw {A = A} e) Post Fail
  unfolding throw
  Triple-throw e h = record { ends = λ w x. h w.nodes x }

  -- Behind a call that may throw.
  pub Triple-call :
      (e : Error) {k : Action A}
      → ((g : Nodes) → Pre g → Fail e g)
      → Triple Pre k Post Fail
      → Triple Pre (call e >> k) Post Fail
  unfolding ◌>>=◌ call require ask pure throw
  Triple-call e {k} h t = record {
    ends = λ w x. elim (Bool-cases (succeeds (first_answer w.answers))) [
      | inl fine ↦ rw fine (t.ends _ x)
      | inr fails ↦ rw fails (h _ x)
    ];
  }

  pub Triple-require :
      (test : Bool) (e : Error) {k : Action A}
      → ((g : Nodes) → Pre g → Fail e g)
      → (test ≡ true → Triple Pre k Post Fail)
      → Triple Pre (require test e >> k) Post Fail
  unfolding ◌>>=◌ require pure throw
  Triple-require true e h t = record { ends = λ w x. (t refl).ends w x }
  Triple-require false e h t = record { ends = λ w x. h w.nodes x }

  pub Triple-ask :
      {f : Answer → Action A}
      → ((answer : Answer) → Triple Pre (f answer) Post Fail)
      → Triple Pre (ask >>= f) Post Fail
  unfolding ◌>>=◌ ask
  Triple-ask h = record { ends = λ w x. (h (first_answer w.answers)).ends _ x }

  pub Triple-nonce :
      {f : Bytes → Action A}
      → ((random : Bytes) → Triple Pre (f random) Post Fail)
      → Triple Pre (nonce >>= f) Post Fail
  unfolding ◌>>=◌ nonce
  Triple-nonce h = record { ends = λ w x. (h (first_nonce w.nonces)).ends _ x }

  pub Triple-preview :
      (p : Preview) {k : Action A} → Triple Pre k Post Fail → Triple Pre (preview p >> k) Post Fail
  unfolding ◌>>=◌ preview
  Triple-preview p h = record { ends = λ w x. h.ends _ x }

  pub Triple-node_at :
      (p : Bytes) {f : Option Node → Action A}
      → ((n : Option Node) → Triple (λ g. Pre g × (g p ≡ n)) (f n) Post Fail)
      → Triple Pre (node_at p >>= f) Post Fail
  unfolding ◌>>=◌ node_at
  Triple-node_at p h = record { ends = λ w x. (h (w.nodes p)).ends w (x, refl) }

  pub Triple-weaken :
      {Post' : A → Nodes → Type 0} {Fail' : Error → Nodes → Type 0} {m : Action A}
      → Triple Pre m Post' Fail'
      → ((a : A) (g : Nodes) → Post' a g → Post a g)
      → ((e : Error) (g : Nodes) → Fail' e g → Fail e g)
      → Triple Pre m Post Fail
  Triple-weaken {Post'} {Fail'} {m} h k l = record { ends = λ w x. weaken (m w) (h.ends w x) }
    where
      weaken : (o : Result Error A × World) → Ends Post' Fail' o → Ends Post Fail o
      weaken (ok a, v) y = k a _ y
      weaken (err e, v) y = l e _ y

pub Triple-put :
    {Pre : Nodes → Type 0} {Post : Unit {0} → Nodes → Type 0} {Fail : Error → Nodes → Type 0}
    (p : Bytes) (n : Option Node)
    → ((g : Nodes) → Pre g → Post tt (changed g p n))
    → Triple Pre (put p n) Post Fail
unfolding put
Triple-put p n h = record { ends = λ w x. h w.nodes x }

-- Behind a test that the precondition knows of.
pub Triple-test :
    {A : Type 0} (Pre : Bool → Nodes → Type 0) (test : Bool) {Post : A → Nodes → Type 0}
    {Fail : Error → Nodes → Type 0} {m n : Action A}
    → Triple (Pre true) m Post Fail
    → Triple (Pre false) n Post Fail
    → Triple (Pre test) (if test then m else n) Post Fail
Triple-test Pre true x y = x
Triple-test Pre false x y = y

pub Triple-from :
    {A : Type 0} {Pre Pre' : Nodes → Type 0} {Post : A → Nodes → Type 0}
    {Fail : Error → Nodes → Type 0} {m : Action A}
    → ((g : Nodes) → Pre g → Pre' g)
    → Triple Pre' m Post Fail
    → Triple Pre m Post Fail
Triple-from h t = record { ends = λ w x. t.ends w (h w.nodes x) }

-- A call that is the last step.
pub Triple-call_end :
    {Pre : Nodes → Type 0} {Post : Unit {0} → Nodes → Type 0} {Fail : Error → Nodes → Type 0}
    (e : Error)
    → ((g : Nodes) → Pre g → Fail e g)
    → ((g : Nodes) → Pre g → Post tt g)
    → Triple Pre (call e) Post Fail
unfolding ◌>>=◌ call require ask pure throw
Triple-call_end e h k = record {
  ends = λ w x. elim (Bool-cases (succeeds (first_answer w.answers))) [
    | inl fine ↦ rw fine (k _ x)
    | inr fails ↦ rw fails (h _ x)
  ];
}

-- A look that is the last step.
pub Triple-look :
    {Pre : Nodes → Type 0} {Fail : Error → Nodes → Type 0} (p : Bytes)
    → Triple Pre (node_at p) (λ n. Pre) Fail
unfolding node_at
Triple-look p = record { ends = λ w x. x }

-- A test that is the last step.
pub Triple-passed :
    {Pre : Nodes → Type 0} {Post : Unit {0} → Nodes → Type 0} {Fail : Error → Nodes → Type 0}
    (e : Error)
    → ((g : Nodes) → Pre g → Post tt g)
    → Triple Pre (require true e) Post Fail
unfolding require pure
Triple-passed e h = record { ends = λ w x. h w.nodes x }

pub Triple-refused :
    {Pre : Nodes → Type 0} {Post : Unit {0} → Nodes → Type 0} {Fail : Error → Nodes → Type 0}
    (e : Error)
    → ((g : Nodes) → Pre g → Fail e g)
    → Triple Pre (require false e) Post Fail
unfolding require throw
Triple-refused e h = record { ends = λ w x. h w.nodes x }

-- What the precondition says of a value, taken out of it.
pub Triple-exists :
    {A C : Type 0} {Pre : C → Nodes → Type 0} {Post : A → Nodes → Type 0}
    {Fail : Error → Nodes → Type 0} {m : Action A}
    → ((c : C) → Triple (Pre c) m Post Fail)
    → Triple (λ g. (c : C) × Pre c g) m Post Fail
Triple-exists h = record { ends = λ w x. (h x.0).ends w x.1 }

pub Triple-fact :
    {A F : Type 0} {Pre : Nodes → Type 0} {Post : A → Nodes → Type 0}
    {Fail : Error → Nodes → Type 0} {m : Action A}
    → (F → Triple Pre m Post Fail)
    → Triple (λ g. F × Pre g) m Post Fail
Triple-fact h = record { ends = λ w x. (h x.0).ends w x.1 }

pub Triple-preview_end :
    {Pre : Nodes → Type 0} {Post : Unit {0} → Nodes → Type 0} {Fail : Error → Nodes → Type 0}
    (p : Preview)
    → ((g : Nodes) → Pre g → Post tt g)
    → Triple Pre (preview p) Post Fail
unfolding preview
Triple-preview_end p h = record { ends = λ w x. h w.nodes x }
