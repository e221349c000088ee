-- ===== src/Author/Links/Distinct.antt =====
-- What validatedLinks of Native/src/Core/Authorship.cpp lets through.
use ii_file_provider.Base.{
  ℕ, suc, ◌≤◌, ◌≡◌, refl, ap, sym, ◌∙◌, subst, ◌≢◌, Distinct, Distinct-snoc, Bool, true, false, not,
  ◌&&◌, ◌||◌, List, [], ◌∷◌, ◌++◌, Option, none, some, Bytes, bytes_eq, bytes_eq_iff, bytes_eq_refl,
  leb, leb→le, length, append_assoc, append-nil, ok, err, or_fail, or_fail-ok, OnOk, OnOk-after,
  OnOk-guard, OnOk-ok, OnOk-map, arith, All, All-append, is_some,
}
use ii_file_provider.Author.Errors.{invalid_argument, Checked}
use ii_file_provider.Author.Unicode.{Utf8proc, clean}
use ii_file_provider.Author.Uri.{valid_uri}
use ii_file_provider.Author.Links.{
  FileLink, file_link, link_eq, has_link, maximum_links, to_option, create, accept_links,
  validated_links,
}
use ii_file_provider.Base.Search.{find_byte}

-- What `create` looks at in a link.
abbrev pub IsAllowed : Utf8proc → FileLink → Type 0
IsAllowed u l =
    ((raw : Bytes) × (clean u raw 160 true false ≡ ok l.name))
    × (find_byte b'|' l.name ≡ none)
    × (valid_uri u l.url false ≡ true)

pub and-both : (a b : Bool) → a && b ≡ true → (a ≡ true) × (b ≡ true)
and-both a b e = ground arith

or-neither : (a b : Bool) → a || b ≡ false → (a ≡ false) × (b ≡ false)
or-neither a b e = ground arith

link-η : (a b : FileLink) → a.name ≡ b.name → a.url ≡ b.url → a ≡ b
link-η a b p q = λ i. file_link (p i) (q i)

pub link_eq-eq : (a b : FileLink) → link_eq a b ≡ true → a ≡ b
unfolding link_eq
link_eq-eq a b e =
    let s = and-both (bytes_eq a.name b.name) (bytes_eq a.url b.url) e in
    link-η a b ((bytes_eq_iff a.name b.name).0 s.0) ((bytes_eq_iff a.url b.url).0 s.1)

pub link_eq_refl : (a : FileLink) → link_eq a a ≡ true
unfolding link_eq
link_eq_refl a = rw (bytes_eq_refl a.name, bytes_eq_refl a.url) refl

pub link_eq-ne : (a b : FileLink) → link_eq a b ≡ false → a ≢ b
link_eq-ne a b e p = false≢true (sym (subst (λ x. link_eq a x ≡ false) (sym p) e) ∙ link_eq_refl a)
  where
    false≢true : ¬ (false ≡ true)
    false≢true e = cc

has_link-fresh : (l : FileLink) (ls : List FileLink) → has_link l ls ≡ false → All (λ y. y ≢ l) ls
unfolding has_link
has_link-fresh l [] e = tt
has_link-fresh l (x ∷ xs) e =
    let s = or-neither (link_eq x l) (has_link l xs) e in
    (link_eq-ne x l s.0, has_link-fresh l xs s.1)

to_option-ok : (m : Checked FileLink) (l : FileLink) → to_option m ≡ some l → m ≡ ok l
to_option-ok (ok a) l e = cc
to_option-ok (err x) l e = cc

abbrev Created : Utf8proc → Bytes → FileLink → Type 0
Created u url l = IsAllowed u l × (l.url ≡ url)

allowed : (o : Option ℕ) (v : Bool) → not (is_some o) && v ≡ true → (o ≡ none) × (v ≡ true)
allowed none v e = (refl, e)
allowed (some i) v e = absurd (ground arith)

pub create-Created :
    (u : Utf8proc) (name url : Bytes) (l : FileLink) → create u name url ≡ some l → Created u url l
unfolding create
create-Created u name url l e =
    OnOk-ok (Created u url) _ l
      (OnOk-after (Created u url) (clean u name 160 true false) _ λ cleaned c.
        OnOk-guard (Created u url) (not (is_some (find_byte b'|' cleaned)) && valid_uri u url false)
          invalid_argument _
          λ g.
            let s = allowed (find_byte b'|' cleaned) (valid_uri u url false) g in
            (((name, c), s.0, s.1), refl))
      (to_option-ok _ l e)

abbrev pub urls : List FileLink → List Bytes
urls [] = []
urls (l ∷ ls) = l.url ∷ urls ls

urls-append : (xs ys : List FileLink) → urls (xs ++ ys) ≡ urls xs ++ urls ys
urls-append [] ys = refl
urls-append (x ∷ xs) ys = ap (◌∷◌ x.url) (urls-append xs ys)

-- Distinct links, each of them as `create` makes it, that lead to `targets`.
pub record IsAccepted (u : Utf8proc) (targets : List Bytes) (ls : List FileLink) : Type 0 where
  pub lead : urls ls ≡ targets
  pub allow : All (IsAllowed u) ls
  pub differ : Distinct ls

IsAccepted-snoc :
    (u : Utf8proc) (targets : List Bytes) (ls : List FileLink) (l : FileLink)
    → IsAccepted u targets ls
    → IsAllowed u l
    → has_link l ls ≡ false
    → IsAccepted u (targets ++ l.url ∷ []) (ls ++ l ∷ [])
IsAccepted-snoc u targets ls l h a e = record {
  lead = urls-append ls (l ∷ []) ∙ ap (λ t. t ++ l.url ∷ []) h.lead;
  allow = All-append (IsAllowed u) ls (l ∷ []) h.allow (a, tt);
  differ = Distinct-snoc ls l h.differ (has_link-fresh l ls e);
}

accept_links-IsAccepted :
    (u : Utf8proc) (targets : List Bytes) (result links : List FileLink)
    → IsAccepted u targets result
    → OnOk (IsAccepted u (targets ++ urls links)) (accept_links u result links)
unfolding accept_links
accept_links-IsAccepted u targets result [] h =
    subst (λ t. IsAccepted u t result) (sym (append-nil targets)) h
accept_links-IsAccepted u targets result (l ∷ ls) h =
    OnOk-after (IsAccepted u (targets ++ l.url ∷ urls ls))
      (or_fail (create u l.name l.url) invalid_argument) _
      λ p e.
        OnOk-guard (IsAccepted u (targets ++ l.url ∷ urls ls)) (not (has_link p result))
          invalid_argument _
          λ g.
            let c = create-Created u l.name l.url p (or_fail-ok _ invalid_argument p e) in
            let step = IsAccepted-snoc u targets result p h c.0 (not-true (has_link p result) g) in
            let rest =
              accept_links-IsAccepted u (targets ++ p.url ∷ []) (result ++ p ∷ []) ls step in
            subst (λ t. OnOk (IsAccepted u t) (accept_links u (result ++ p ∷ []) ls))
              (append_assoc targets (p.url ∷ []) (urls ls) ∙ ap (λ x. targets ++ x ∷ urls ls) c.1)
              rest
  where
    not-true : (b : Bool) → not b ≡ true → b ≡ false
    not-true b e = ground arith

length-urls : (ls : List FileLink) → length (urls ls) ≡ length ls
length-urls [] = refl
length-urls (l ∷ ls) = ap suc (length-urls ls)

-- `validatedLinks` returns as many links as it is given, 64 at most, no two the same, in the order
-- given and to the same addresses; each name is a clean one without a bar and each address a URI.
pub validated_links-IsAccepted :
    (u : Utf8proc) (links result : List FileLink)
    → validated_links u links ≡ ok result
    → IsAccepted u (urls links) result
      × (length result ≡ length links)
      × (length links ≤ maximum_links)
unfolding validated_links
validated_links-IsAccepted u links result e =
    OnOk-ok Wanted _ result
      (OnOk-guard Wanted (leb (length links) maximum_links) invalid_argument _ λ g.
        OnOk-map (IsAccepted u (urls links)) Wanted (accept_links u [] links)
          (λ ls h. (
            h,
            sym (length-urls ls) ∙ ap length h.lead ∙ length-urls links,
            leb→le (length links) 64 g,
          ))
          (accept_links-IsAccepted u [] [] links (record { lead = refl; allow = tt; differ = tt })))
      e
  where
    Wanted : List FileLink → Type 0
    Wanted ls =
        IsAccepted u (urls links) ls × (length ls ≡ length links) × (length links ≤ maximum_links)
