-- ===== src/Screenshots/Pages/Writes.antt =====
-- Actions that write files one after the other, up to the first exception.
use mathlib.Core.List.{append-nil, append_assoc}
use owon_xdm1041_server.Base.{
  ◌≡◌, ◌⊎◌, inl, inr, refl, sym, ◌∙◌, subst, List, [], ◌++◌, Action, Error, Result, ok, err, pure,
  resume, ◌>>=◌,
}

module _ {W X : Type 0} (saved : W → List X) where
  -- An action that leaves the files, whatever it returns or raises.
  abbrev pub Quiet : {A : Type 0} → Action W A → Type 0
  Quiet m = (w : W) → saved (m w).1 ≡ saved w

  -- What an action that ended so has written: these files in order, and all of them where it
  -- returns.
  abbrev pub Written : {A : Type 0} → (A → W → Type 0) → List X → Result A × W → W → Type 0
  Written {A} Post files r w =
      (new rest : List X) × (files ≡ new ++ rest)
      × (saved r.1 ≡ saved w ++ new)
      × (((a : A) × (r.0 ≡ ok a) × Post a r.1 × (rest ≡ [])) ⊎ ((e : Error) × (r.0 ≡ err e)))

  -- From every world that meets the condition.
  abbrev pub Writes : {A : Type 0} → (W → Type 0) → (A → W → Type 0) → List X → Action W A → Type 0
  Writes Pre Post files m = (w : W) → Pre w → Written Post files (m w) w

  abbrev pub Any : W → Type 0
  Any w = Unit

  pub resume-Written :
      {A B : Type 0} {Post : A → W → Type 0} (Post' : B → W → Type 0) (xs ys : List X)
      (f : A → Action W B) (r : Result A × W) (w : W)
      → Written Post xs r w
      → ((a : A) → Writes (Post a) Post' ys (f a))
      → Written Post' (xs ++ ys) (resume f r.0 r.1) w
  resume-Written {Post = Post} Post' xs ys f (ok a, w') w
        (new, rest, split, grown, inl (b, e, post, done)) h =
      let same : b ≡ a = cc in
      let (new', rest', split', grown', ends) = h a w' (subst (λ c. Post c w') same post) in
      (
        new ++ new',
        rest',
        rw (split, done, append-nil new, split') (sym (append_assoc new new' rest')),
        rw (grown', grown) (append_assoc (saved w) new new'),
        ends,
      )
  resume-Written Post' xs ys f (err x, w') w (new, rest, split, grown, inl (b, e, post, done)) h =
      absurd cc
  resume-Written Post' xs ys f (ok a, w') w (new, rest, split, grown, inr (x, e)) h = absurd cc
  resume-Written Post' xs ys f (err x, w') w (new, rest, split, grown, inr (y, e)) h =
      (new, rest ++ ys, rw split (append_assoc new rest ys), grown, inr (x, refl))

  -- A step that writes these files, and then steps that write those.
  pub then-Writes :
      {A B : Type 0} {Pre : W → Type 0} {Post : A → W → Type 0} (Post' : B → W → Type 0)
      (xs ys : List X) (m : Action W A) (f : A → Action W B)
      → Writes Pre Post xs m
      → ((a : A) → Writes (Post a) Post' ys (f a))
      → Writes Pre Post' (xs ++ ys) (m >>= f)
  then-Writes Post' xs ys m f h k w pre = resume-Written Post' xs ys f (m w) w (h w pre) k

  pub Quiet-Written :
      {A : Type 0} (Post : A → W → Type 0) (r : Result A × W) (w : W)
      → saved r.1 ≡ saved w
      → ((a : A) → r.0 ≡ ok a → Post a r.1)
      → Written Post [] r w
  Quiet-Written Post (ok a, w') w e h =
      ([], [], refl, e ∙ sym (append-nil (saved w)), inl (a, refl, h a refl, refl))
  Quiet-Written Post (err x, w') w e h =
      ([], [], refl, e ∙ sym (append-nil (saved w)), inr (x, refl))

  -- A step that writes no file and brings about a condition.
  pub Quiet-then :
      {A B : Type 0} (Pre : W → Type 0) (Post : A → W → Type 0) (Post' : B → W → Type 0)
      (ys : List X) (m : Action W A) (f : A → Action W B)
      → Quiet m
      → ((w : W) (a : A) → Pre w → (m w).0 ≡ ok a → Post a (m w).1)
      → ((a : A) → Writes (Post a) Post' ys (f a))
      → Writes Pre Post' ys (m >>= f)
  Quiet-then Pre Post Post' ys m f h k next =
      then-Writes {Pre = Pre} {Post = Post} Post' [] ys m f
        (λ w pre. Quiet-Written Post (m w) w (h w) λ a e. k w a pre e) next

  -- A step that writes no file.
  pub skip-Writes :
      {A B : Type 0} (Post' : B → W → Type 0) (ys : List X) (m : Action W A) (f : A → Action W B)
      → Quiet m
      → ((a : A) → Writes Any Post' ys (f a))
      → Writes Any Post' ys (m >>= f)
  skip-Writes Post' ys m f h next =
      Quiet-then Any (λ a w. Unit {0}) Post' ys m f h (λ w a pre e. tt) next

  -- A condition that does not depend on the world.
  pub known :
      {B C : Type 0} (Post' : B → W → Type 0) (ys : List X) (m : Action W B)
      → (C → Writes Any Post' ys m)
      → Writes (λ w. C) Post' ys m
  known Post' ys m h w c = h c w tt

  pub pure-Writes :
      {A : Type 0} (Pre : W → Type 0) (Post : A → W → Type 0) (a : A)
      → ((w : W) → Post a w)
      → Writes Pre Post [] (pure a)
  pure-Writes Pre Post a post w pre =
      ([], [], refl, sym (append-nil (saved w)), inl (a, refl, post w, refl))
