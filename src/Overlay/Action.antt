-- ===== src/Overlay/Action.antt =====
-- Operations on the overlay's state and the host's: what an operation returns, and both states
-- afterwards. A failed operation keeps what it did before it failed.
use vidya_god_fs.Prelude.{ℕ, ◌≡◌, ap, Result, ok, err, stuck}
use vidya_god_fs.Overlay.Types.{VfsState}

abbrev pub Action : Type 0 → Type 0 → Type 0
Action F A = F → VfsState → Result A × F × VfsState

module _ {F : Type 0} where
  unfoldable pub pure : {A : Type 0} → A → Action F A
  pure a f s = (ok a, f, s)

  unfoldable pub fail : {A : Type 0} → ℕ → Action F A
  fail e f s = (err e, f, s)

  -- A look at the states.
  unfoldable pub query : {A : Type 0} → (F → VfsState → A) → Action F A
  query g f s = (ok (g f s), f, s)

  unfoldable pub answer : {A : Type 0} → (F → VfsState → Result A) → Action F A
  answer g f s = (g f s, f, s)

  -- A call of the host.
  unfoldable pub host_call : {A : Type 0} → (F → Result A × F) → Action F A
  host_call c f s = let (r, f1) = c f in (r, f1, s)

  -- A call of the host that returns nothing.
  unfoldable pub host_do : (F → F) → Action F ℕ
  host_do c f s = (ok 0, c f, s)

  -- A change of both states that cannot fail.
  unfoldable pub change : (F → VfsState → F × VfsState) → Action F ℕ
  change c f s = let (f1, s1) = c f s in (ok 0, f1, s1)

  -- The result as a value: what follows decides.
  unfoldable pub attempt : {A : Type 0} → Action F A → Action F (Result A)
  attempt m f s = let (r, f1, s1) = m f s in (ok r, f1, s1)

  unfoldable pub give : {A : Type 0} → Result A → Action F A
  give r f s = (r, f, s)

  -- What follows a run, when it returned.
  abbrev pub settle :
      {A B : Type 0} → (A → Action F B) → Result A × F × VfsState → Result B × F × VfsState
  settle k (ok a, f, s) = k a f s
  settle k (err e, f, s) = (err e, f, s)
  settle k (stuck, f, s) = (stuck, f, s)

  infixl 5 ◌>>=◌ ◌>>◌
  unfoldable pub ◌>>=◌ : {A B : Type 0} → Action F A → (A → Action F B) → Action F B
  ◌>>=◌ m k f s = settle k (m f s)

  unfoldable pub ◌>>◌ : {A B : Type 0} → Action F A → Action F B → Action F B
  m >> k = m >>= (λ _. k)

  -- An action that returns goes on with what it returned.
  pub bind_ok :
      {A B : Type 0} (m : Action F A) (k : A → Action F B) {f : F} {s : VfsState} {a : A} {f1 : F}
      {s1 : VfsState}
      → m f s ≡ (ok a, f1, s1)
      → (m >>= k) f s ≡ k a f1 s1
  unfolding ◌>>=◌
  bind_ok m k e = ap (settle k) e

  pub bind_err :
      {A B : Type 0} (m : Action F A) (k : A → Action F B) {f : F} {s : VfsState} {e : ℕ} {f1 : F}
      {s1 : VfsState}
      → m f s ≡ (err e, f1, s1)
      → (m >>= k) f s ≡ (err e, f1, s1)
  unfolding ◌>>=◌
  bind_err m k e = ap (settle k) e
