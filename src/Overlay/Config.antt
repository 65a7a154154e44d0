-- ===== src/Overlay/Config.antt =====
-- What a mount is set up with (`VfsState::Init` of src/overlay.cpp): all of the state but the masks. `Keeps`
-- is said of an operation that leaves it alone, with a rule for each way to build one.
pub mod Kept
use vidya_god_fs.Prelude.{
  ℕ, zero, suc, ◌≡◌, refl, ap, ◌∙◌, Bool, true, false, List, [], ◌∷◌, map, Option, none, some,
  Result, ok, err, stuck, is_empty, if◌then◌else◌,
}
use vidya_god_fs.Prelude.Text.{Str, str_eq}
use vidya_god_fs.Overlay.Types.{Layer, KeptMasks, VfsState, HostIo}
use vidya_god_fs.Overlay.Action.{
  Action, settle, pure, fail, query, answer, host_call, host_do, change, attempt, give, ◌>>=◌, ◌>>◌,
}

abbrev no_masks : KeptMasks → KeptMasks
no_masks k = record { deleted = []; opaque = [] }

-- A layer without the masks of its kept folder.
unfoldable pub bare : Layer → Layer
bare l = record l { kept = elim l.kept [ none ↦ none | some k ↦ some (no_masks k) ] }

-- `t` differs from `s` at most in the masks.
pub record Config (s t : VfsState) : Type 0 where
  pub writelayer_eq : t.writelayer ≡ s.writelayer
  pub read_only_eq : t.read_only ≡ s.read_only
  pub flatten_eq : t.flatten_symlinks ≡ s.flatten_symlinks
  pub uid_eq : t.uid ≡ s.uid
  pub gid_eq : t.gid ≡ s.gid
  pub layers_eq : map bare t.layers ≡ map bare s.layers
  pub implicit_eq : t.implicit_dirs ≡ s.implicit_dirs
  pub case_eq : t.case_insensitive ≡ s.case_insensitive
  pub canon_eq : t.canon_case ≡ s.canon_case

-- A change of the masks alone.
pub Config-masks :
    (s : VfsState) (layers : List Layer) (w o : List Str)
    → map bare layers ≡ map bare s.layers
    → Config s (record s { layers = layers; whiteout_set = w; opaque_set = o })
Config-masks s layers w o same = record {
  writelayer_eq = refl;
  read_only_eq = refl;
  flatten_eq = refl;
  uid_eq = refl;
  gid_eq = refl;
  layers_eq = same;
  implicit_eq = refl;
  case_eq = refl;
  canon_eq = refl;
}

pub Config-refl : (s : VfsState) → Config s s
Config-refl s = Config-masks s s.layers s.whiteout_set s.opaque_set refl

pub Config-trans : {s t u : VfsState} → Config s t → Config t u → Config s u
Config-trans p q = record {
  writelayer_eq = q.writelayer_eq ∙ p.writelayer_eq;
  read_only_eq = q.read_only_eq ∙ p.read_only_eq;
  flatten_eq = q.flatten_eq ∙ p.flatten_eq;
  uid_eq = q.uid_eq ∙ p.uid_eq;
  gid_eq = q.gid_eq ∙ p.gid_eq;
  layers_eq = q.layers_eq ∙ p.layers_eq;
  implicit_eq = q.implicit_eq ∙ p.implicit_eq;
  case_eq = q.case_eq ∙ p.case_eq;
  canon_eq = q.canon_eq ∙ p.canon_eq;
}

module _ {F : Type 0} where
  -- The states after a run, by the result.
  pub Config-if :
      {A : Type 0} (s : VfsState) (b : Bool) (x y : Result A × F × VfsState)
      → Config s x.2
      → Config s y.2
      → Config s (if b then x else y).2
  Config-if s true x y p q = p
  Config-if s false x y p q = q

  -- A run that began in `s` and changed no more than the masks.
  pub record After {A : Type 0} (s : VfsState) (x : Result A × F × VfsState) : Type 0 where
    pub config : Config s x.2

  pub After-still : {A : Type 0} {s : VfsState} (r : Result A) (f : F) → After s (r, f, s)
  After-still {A} {s} r f = record { config = Config-refl s }

  pub After-if :
      {A : Type 0} {s : VfsState} {x y : Result A × F × VfsState} (b : Bool)
      → After s x
      → After s y
      → After s (if b then x else y)
  After-if true p q = p
  After-if false p q = q

  -- An action that changes no more than the masks, whatever it is run on.
  pub record Keeps {A : Type 0} (m : Action F A) : Type 0 where
    pub keeps : (f : F) (s : VfsState) → After s (m f s)

  after :
      {A B : Type 0} (s : VfsState) (k : A → Action F B) (x : Result A × F × VfsState)
      → After s x
      → ((a : A) → Keeps (k a))
      → After s (settle k x)
  after s k (ok a, f, t) p q = record { config = Config-trans p.config ((q a).keeps f t).config }
  after s k (err e, f, t) p q = record { config = p.config }
  after s k (stuck, f, t) p q = record { config = p.config }

  pub Keeps-bind :
      {A B : Type 0} (m : Action F A) (k : A → Action F B)
      → Keeps m
      → ((a : A) → Keeps (k a))
      → Keeps (m >>= k)
  unfolding ◌>>=◌
  Keeps-bind m k p q = record { keeps = λ f s. after s k (m f s) (p.keeps f s) q }

  pub Keeps-if :
      {A : Type 0} (b : Bool) (m n : Action F A) → Keeps m → Keeps n → Keeps (if b then m else n)
  Keeps-if true m n p q = p
  Keeps-if false m n p q = q

  pub Keeps-option :
      {A B : Type 0} (o : Option A) (m : Action F B) (k : A → Action F B)
      → Keeps m
      → ((a : A) → Keeps (k a))
      → Keeps (elim o as (λ x. Action F B) [ none ↦ m | some a ↦ k a ])
  Keeps-option none m k p q = p
  Keeps-option (some a) m k p q = q a

  pub Keeps-attempt : {A : Type 0} (m : Action F A) → Keeps m → Keeps (attempt m)
  unfolding attempt
  Keeps-attempt m p = record { keeps = λ f s. record { config = (p.keeps f s).config } }

  pub Keeps-change :
      (c : F → VfsState → F × VfsState)
      → ((f : F) (s : VfsState) → Config s (c f s).1)
      → Keeps (change c)
  unfolding change
  Keeps-change c p = record { keeps = λ f s. record { config = p f s } }

  pub Keeps-pure : {A : Type 0} (a : A) → Keeps (pure a)
  unfolding pure
  Keeps-pure a = record { keeps = λ f s. record { config = Config-refl s } }

  pub Keeps-fail : {A : Type 0} (e : ℕ) → Keeps (fail {A = A} e)
  unfolding fail
  Keeps-fail e = record { keeps = λ f s. record { config = Config-refl s } }

  pub Keeps-query : {A : Type 0} (g : F → VfsState → A) → Keeps (query g)
  unfolding query
  Keeps-query g = record { keeps = λ f s. record { config = Config-refl s } }

  pub Keeps-give : {A : Type 0} (r : Result A) → Keeps (give r)
  unfolding give
  Keeps-give r = record { keeps = λ f s. record { config = Config-refl s } }

  pub Keeps-answer : {A : Type 0} (g : F → VfsState → Result A) → Keeps (answer g)
  unfolding answer
  Keeps-answer g = record { keeps = λ f s. record { config = Config-refl s } }

  pub Keeps-host_call : {A : Type 0} (c : F → Result A × F) → Keeps (host_call c)
  unfolding host_call
  Keeps-host_call c = record { keeps = λ f s. record { config = Config-refl s } }

  pub Keeps-host_do : (c : F → F) → Keeps (host_do c)
  unfolding host_do
  Keeps-host_do c = record { keeps = λ f s. record { config = Config-refl s } }

  pub Keeps-then :
      {A B : Type 0} (m : Action F A) (k : Action F B) → Keeps m → Keeps k → Keeps (m >> k)
  unfolding ◌>>◌
  Keeps-then m k p q = Keeps-bind m (λ a. k) p (λ a. q)

pub ruleset keeps = (
  Keeps-bind, Keeps-then, Keeps-if, Keeps-option, Keeps-attempt, Keeps-pure, Keeps-fail,
  Keeps-query, Keeps-give, Keeps-answer, Keeps-host_call, Keeps-host_do,
)
