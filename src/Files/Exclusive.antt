-- ===== src/Files/Exclusive.antt =====
-- File::create (Native/src/Core/File.cpp): it never replaces a file.
use ii_file_provider.Base.{
  refl, err, ok, subst, Result, sym, ◌∙◌, some, ◌≢◌, none, Option, ◌≡◌, Bytes, ℕ,
}
use ii_file_provider.Files.World.{
  exists, failed, no_entry, cross_device, other, done, cut, ◌>>=◌, World, Action, cut, regular,
  failed, succeeds, Answer, changed, Error, Node, Nodes,
}
use ii_file_provider.Files.Paths.{Paths, checked_path, is_name}
use ii_file_provider.Files.Staged.{discard, staged_file}
use ii_file_provider.Files.Staging.{staged_file-Triple, write_staged-Triple}
use ii_file_provider.Files.Writes.{staged, destroy, linked, link, create_body, end_create, create}
use ii_file_provider.Files.Overwrite.{discarded-Triple}
use ii_file_provider.Files.Outcomes.{
  Triple-fact, Ends, Triple, Triple-bind, Triple-pure, Triple-throw, Triple-weaken, Triple-ask,
  Triple-node_at, Triple-put, Triple-if, Triple-require, Triple-preview_end,
}
use ii_file_provider.Files.Frame.{
  Safe-refl, Safe-Grown, Kept-none, some≢none, Kept-equal, Grown, Safe, Staging, Holding,
  changed_same, changed_other, Kept, Kept-some,
}

module _ (f : Nodes) where
  -- The staged bytes stand at `d`, where nothing was.
  abbrev Linked : Bytes → Bytes → Bytes → Nodes → Type 0
  Linked s d bytes g =
      (f s ≡ none)
      × (f d ≡ none)
      × (s ≢ d)
      × ((mode : ℕ) × (g d ≡ some (regular bytes mode)))
      × ((p : Bytes) → p ≢ s → p ≢ d → Kept f g p)

  -- The destination was absent and holds the bytes, and every file that was there is as it was.
  abbrev pub Created : Bytes → Bytes → Nodes → Type 0
  Created d bytes g = (f d ≡ none) × ((mode : ℕ) × (g d ≡ some (regular bytes mode))) × Grown f g

  Linked-put :
      (s d bytes : Bytes) (g : Nodes) (n : Node)
      → (Holding f s bytes g × (g d ≡ none)) × (g s ≡ some n)
      → Linked s d bytes (changed g d (some n))
  Linked-put s d bytes g n h = (
    h.0.0.0.0,
    absent,
    apart,
    (h.0.0.1.0, changed_same g d (some n) ∙ (sym h.1 ∙ h.0.0.1.1)),
    λ p ne far.
        Kept-equal f g (changed g d (some n)) p (changed_other g d p (some n) (λ e. far (sym e)))
          (h.0.0.0.1 p ne),
  )
    where
      apart : s ≢ d
      apart e = some≢none (subst (λ q. g q ≡ some n) e h.1) h.0.1

      absent : f d ≡ none
      absent = Kept-none f g d (h.0.0.0.1 d (λ e. apart (sym e))) h.0.1

  Linked-discard :
      (s d bytes : Bytes) (g : Nodes) → Linked s d bytes g → Linked s d bytes (changed g s none)
  Linked-discard s d bytes g (x, y, apart, (mode, e), rest) = (
    x,
    y,
    apart,
    (mode, changed_other g s d none apart ∙ e),
    λ p ne far.
        Kept-equal f g (changed g s none) p (changed_other g s p none (λ e. ne (sym e)))
          (rest p ne far),
  )

  Linked-Created : (s d bytes : Bytes) (g : Nodes) → Linked s d bytes g → Created d bytes g
  Linked-Created s d bytes g (x, y, apart, e, rest) = (
    y,
    e,
    λ p n here.
        Kept-some f g p n
          (rest p (λ same. some≢none here (subst (λ q. f q ≡ none) (sym same) x))
            (λ same. some≢none here (subst (λ q. f q ≡ none) (sym same) y)))
          here,
  )

  module _ (s d bytes : Bytes) where
    linked-Triple :
        (there n : Option Node) (answer : Answer)
        → Triple
            (λ g. (Holding f s bytes g × (g d ≡ there)) × (g s ≡ n))
            (linked d there n answer)
            (λ _. Linked s d bytes)
            (λ e. Staging f s)
    linked-Triple there n (failed exists) = Triple-throw _ (λ g h. h.0.0.0)
    linked-Triple there n (failed no_entry) = Triple-throw _ (λ g h. h.0.0.0)
    linked-Triple there n (failed cross_device) = Triple-throw _ (λ g h. h.0.0.0)
    linked-Triple there n (failed other) = Triple-throw _ (λ g h. h.0.0.0)
    linked-Triple (some x) n done = Triple-throw _ (λ g h. h.0.0.0)
    linked-Triple (some x) n (cut k) = Triple-throw _ (λ g h. h.0.0.0)
    linked-Triple none none done = Triple-throw _ (λ g h. h.0.0.0)
    linked-Triple none none (cut k) = Triple-throw _ (λ g h. h.0.0.0)
    linked-Triple none (some x) done = Triple-put d _ (λ g h. Linked-put s d bytes g x h)
    linked-Triple none (some x) (cut k) = Triple-put d _ (λ g h. Linked-put s d bytes g x h)

    link-Triple : Triple (Holding f s bytes) (link s d) (λ _. Linked s d bytes) (λ e. Staging f s)
    unfolding link
    link-Triple =
        Triple-ask (λ answer.
          Triple-node_at d (λ there. Triple-node_at s (λ n. linked-Triple there n answer)))

    retired-Triple :
        {Fail : Error → Nodes → Type 0}
        → Triple (Linked s d bytes) (discard s) (λ _. Linked s d bytes) Fail
    unfolding discard
    retired-Triple = Triple-ask (λ answer.
        Triple-if (succeeds answer) (λ fine. Triple-put s none (Linked-discard s d bytes))
          (λ fails. Triple-pure tt (λ g h. h)))

    module _ (paths : Paths) where
      create_body-Triple :
          Triple
            (Staging f s)
            (create_body paths (staged (s, d)) d bytes)
            (λ _. Linked s d bytes)
            (λ e. Staging f s)
      unfolding create_body
      create_body-Triple = Triple-bind _ (write_staged-Triple f paths s bytes) (λ _.
          Triple-bind _ link-Triple
            (λ _. Triple-bind _ retired-Triple (λ _. Triple-preview_end _ (λ g h. h))))

      end_create-Ends :
          (o : Result Error (Unit {0}) × World)
          → Ends (λ _. Linked s d bytes) (λ e. Staging f s) o
          → Ends (λ _. Created d bytes) (λ e. Grown f) (end_create paths (staged (s, d)) o)
      unfolding end_create destroy
      end_create-Ends (ok _, w) h =
          (Triple-weaken {Fail' = λ e. Grown f} retired-Triple (λ _. Linked-Created s d bytes)
              (λ e g h. h)).ends
            w h
      end_create-Ends (err e, w) h = (discarded-Triple f s e).ends w h

  pub create-Triple :
      (paths : Paths) (name bytes : Bytes)
      → Triple
          (Safe f)
          (create paths name bytes)
          (λ _. Created (paths.absolute name) bytes)
          (λ e. Grown f)
  unfolding create checked_path
  create-Triple paths name bytes =
      Triple-bind (λ target g. (target ≡ paths.absolute name) × Safe f g)
        (Triple-require (is_name name) _ (Safe-Grown f) (λ fine. Triple-pure _ (λ g h. (refl, h))))
        (λ target. Triple-fact (λ e.
          subst (λ d. Triple (Safe f) (behind target) (λ _. Created d bytes) (λ e. Grown f)) e
            (behind-Triple target)))
    where
      behind : Bytes → Action (Unit {0})
      behind target = do
        made ← staged_file paths target
        (λ w. end_create paths (staged made) (create_body paths (staged made) target bytes w))

      behind-Triple :
          (target : Bytes)
          → Triple (Safe f) (behind target) (λ _. Created target bytes) (λ e. Grown f)
      behind-Triple target = Triple-bind _ (staged_file-Triple f paths target) (λ made. record {
        ends = λ w h.
            end_create-Ends made.0 target bytes paths _
              ((create_body-Triple made.0 target bytes paths).ends w h.0);
      })

-- Whatever the calls answer: when `create` returns, nothing had been at the destination, it holds
-- exactly the bytes, and every file that was there is there with the same content and mode; when
-- it throws, the latter holds too. So `create` never replaces a file.
pub create-Created :
    (paths : Paths) (name bytes : Bytes) (w : World)
    → Ends
        (λ _. Created w.nodes (paths.absolute name) bytes)
        (λ e. Grown w.nodes)
        (create paths name bytes w)
create-Created paths name bytes w =
    (create-Triple w.nodes paths name bytes).ends w (Safe-refl w.nodes)
