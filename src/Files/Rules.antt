-- ===== src/Files/Rules.antt =====
-- Proofs about chains of calls on the file system, and what each call leaves.
use rcodex.Common.{
  ℕ, zero, suc, ◌≡◌, refl, sym, ap, ◌∙◌, ◌⊎◌, inl, inr, Bool, true, false, Option, none, some, List,
  [], ◌∷◌, Result, ok, err, Error, Result-cases,
}
use rcodex.Files.{
  FilePath, Node, file, other, Files, World, Action, ◌>>=◌, ◌>>◌, refuse_if, bytes_of, lift,
  call_with, call, calls, symlink_metadata, read,
}

module _ {ℓ κ μ} {A : Type ℓ} {B : Type κ} (Q : World × Result Error B → Type μ) where
  bind_case :
      (next : A → Action B) (o : World × Result Error A)
      → ((later : World) (e : Error) → o ≡ (later, err e) → Q (later, err e))
      → ((later : World) (a : A) → o ≡ (later, ok a) → Q (next a later))
      → Q (elim o.1 [ err e ↦ (o.0, err e) | ok value ↦ next value o.0 ])
  bind_case next (later, err e) failed went = failed later e refl
  bind_case next (later, ok a) failed went = went later a refl

  -- What holds after each way that a chain can go holds after the chain.
  pub bind_rule :
      (act : Action A) (next : A → Action B) (w : World)
      → ((later : World) (e : Error) → act w ≡ (later, err e) → Q (later, err e))
      → ((later : World) (a : A) → act w ≡ (later, ok a) → Q (next a later))
      → Q ((act >>= next) w)
  bind_rule act next w failed went = bind_case next (act w) failed went

-- A chain goes on after a first step that succeeds.
pub bind_ok {ℓ κ} :
    {A : Type ℓ} {B : Type κ} (act : Action A) (next : A → Action B) (w later : World) (a : A)
    → act w ≡ (later, ok a)
    → (act >>= next) w ≡ next a later
bind_ok act next w later a went =
    ap (λ o. elim o.1 [ err e ↦ (o.0, err e) | ok value ↦ next value o.0 ]) went

-- A step that leaves the files as they are.
abbrev pub Keeps {ℓ} : {A : Type ℓ} → Files → World × Result Error A → Type 0
Keeps files (later, result) = later.files ≡ files

call_with-Keeps : (w : World) (faults : List Bool) → Keeps w.files (call_with w faults)
unfolding call_with
call_with-Keeps w [] = refl
call_with-Keeps w (true ∷ rest) = refl
call_with-Keeps w (false ∷ rest) = refl

pub call-Keeps : (w : World) → Keeps w.files (call w)
unfolding call
call-Keeps w = call_with-Keeps w w.faults

pub calls-Keeps : (n : ℕ) (w : World) → Keeps w.files (calls n w)
unfolding calls
calls-Keeps zero w = refl
calls-Keeps (suc n) w =
    bind_rule (Keeps w.files) call (λ done. calls n) w
      (λ later e same. ap (λ o. o.0.files) (sym same) ∙ call-Keeps w)
      (λ later a same. calls-Keeps n later ∙ ap (λ o. o.0.files) (sym same) ∙ call-Keeps w)

-- The files are as they were, and a result that is there has the property.
abbrev pub Looks {ℓ} : {A : Type ℓ} → Files → (A → Type ℓ) → World × Result Error A → Type ℓ
Looks {A} files P (later, result) =
    (later.files ≡ files) × (((e : Error) × (result ≡ err e)) ⊎ ((a : A) × (result ≡ ok a) × P a))

module _ {ℓ κ μ} {A : Type ℓ} {B : Type κ} (Q : World × Result Error B → Type μ) where
  look_case :
      (next : A → Action B) (files : Files) (P : A → Type ℓ) (o : World × Result Error A)
      → Looks files P o
      → ((later : World) (e : Error) → later.files ≡ files → Q (later, err e))
      → ((later : World) (a : A) → later.files ≡ files → P a → Q (next a later))
      → Q (elim o.1 [ err e ↦ (o.0, err e) | ok value ↦ next value o.0 ])
  look_case next files P (later, err e) (kept, _) failed went = failed later e kept
  look_case next files P (later, ok a) (kept, inl (e, bad)) failed went = cc
  look_case next files P (later, ok a) (kept, inr (b, same, p)) failed went =
      let e : b ≡ a = cc in went later a kept (rw e at p)

  -- A chain that begins with such a step.
  pub look_rule :
      (act : Action A) (next : A → Action B) (w : World) (P : A → Type ℓ)
      → Looks w.files P (act w)
      → ((later : World) (e : Error) → later.files ≡ w.files → Q (later, err e))
      → ((later : World) (a : A) → later.files ≡ w.files → P a → Q (next a later))
      → Q ((act >>= next) w)
  look_rule act next w P looked failed went = look_case next w.files P (act w) looked failed went

pub call-Looks : (w : World) → Looks w.files (λ _. Unit {0}) (call w)
call-Looks w = elim (Result-cases (call w).1) [
  | inl (e, failed) ↦ (call-Keeps w, inl (e, failed))
  | inr (u, went) ↦ (call-Keeps w, inr (u, went, tt))
]

pub calls-Looks : (n : ℕ) (w : World) → Looks w.files (λ _. Unit {0}) (calls n w)
calls-Looks n w = elim (Result-cases (calls n w).1) [
  | inl (e, failed) ↦ (calls-Keeps n w, inl (e, failed))
  | inr (u, went) ↦ (calls-Keeps n w, inr (u, went, tt))
]

pub symlink_metadata-Looks :
    (p : FilePath) (w : World) → Looks w.files (λ n. n ≡ w.files p) (symlink_metadata p w)
unfolding symlink_metadata
symlink_metadata-Looks p w =
    look_rule (Looks w.files (λ n. n ≡ w.files p)) call (λ done later. (later, ok (later.files p)))
      w (λ _. Unit {0}) (call-Looks w) (λ later e kept. (kept, inl (e, refl)))
      (λ later u kept p'. (kept, inr (later.files p, refl, ap (λ (f : Files). f p) kept)))

bytes_of-Looks :
    (files : Files) (later : World) (node : Option Node)
    → later.files ≡ files
    → Looks files (λ b. bytes_of node ≡ ok b) (later, bytes_of node)
bytes_of-Looks files later none kept = (kept, inl ("the file does not exist", refl))
bytes_of-Looks files later (some (file mode bytes)) kept = (kept, inr (bytes, refl, refl))
bytes_of-Looks files later (some other) kept = (kept, inl ("the path is not a file", refl))

pub read-Looks :
    (p : FilePath) (w : World) → Looks w.files (λ b. bytes_of (w.files p) ≡ ok b) (read p w)
unfolding read
read-Looks p w =
    look_rule (Looks w.files (λ b. bytes_of (w.files p) ≡ ok b)) call
      (λ done later. (later, bytes_of (later.files p))) w (λ _. Unit {0}) (call-Looks w)
      (λ later e kept. (kept, inl (e, refl)))
      (λ later u kept p'.
        rw (ap (λ (f : Files). f p) kept) (bytes_of-Looks w.files later (w.files p) kept))

-- A chain that begins with a guard.
pub refuse_rule {ℓ μ} :
    {A : Type ℓ} (Q : World × Result Error A → Type μ) (b : Bool) (e : Error) (next : Action A)
    (w : World)
    → (b ≡ true → Q (w, err e))
    → (b ≡ false → Q (next w))
    → Q ((refuse_if b e >> next) w)
refuse_rule Q true e next w refused went = refused refl
refuse_rule Q false e next w refused went = went refl

pub lift-Looks {ℓ} :
    {A : Type ℓ} (r : Result Error A) (w : World) → Looks w.files (λ a. r ≡ ok a) (lift r w)
lift-Looks (ok a) w = (refl, inr (a, refl, refl))
lift-Looks (err e) w = (refl, inl (e, refl))

-- Two steps in a row.
pub chain_rule {ℓ} :
    {A B : Type ℓ} (act : Action A) (next : A → Action B) (w : World) (P : A → Type ℓ)
    (Q : B → Type ℓ)
    → Looks w.files P (act w)
    → ((later : World) (a : A) → P a → Looks later.files Q (next a later))
    → Looks w.files Q ((act >>= next) w)
chain_rule act next w P Q looked rest =
    look_rule (Looks w.files Q) act next w P looked (λ later e kept. (kept, inl (e, refl)))
      (λ later a kept p. let (same, outcome) = rest later a p in (same ∙ kept, outcome))

-- A weaker property of the result.
pub Looks-weaken {ℓ} :
    {A : Type ℓ} (files : Files) (P Q : A → Type ℓ) (o : World × Result Error A)
    → Looks files P o
    → ((a : A) → P a → Q a)
    → Looks files Q o
Looks-weaken files P Q o (kept, inl (e, refused)) h = (kept, inl (e, refused))
Looks-weaken files P Q o (kept, inr (a, went, p)) h = (kept, inr (a, went, h a p))

-- Two steps in a row, where what holds of the result is about the files.
pub kept_rule {ℓ} :
    {A B : Type ℓ} (act : Action A) (next : A → Action B) (w : World) (files : Files)
    (P : A → Type ℓ) (Q : B → Type ℓ)
    → w.files ≡ files
    → Looks w.files P (act w)
    → ((later : World) (a : A) → later.files ≡ files → P a → Looks files Q (next a later))
    → Looks files Q ((act >>= next) w)
kept_rule act next w files P Q kept looked rest =
    look_rule (Looks files Q) act next w P looked (λ later e same. (same ∙ kept, inl (e, refl)))
      (λ later a same p. rest later a (same ∙ kept) p)

-- A step that leaves this file as it is.
abbrev pub Spares {ℓ} : {A : Type ℓ} → FilePath → World → World × Result Error A → Type 0
Spares p w o = o.0.files p ≡ w.files p

pub Looks-Spares {ℓ} :
    {A : Type ℓ} (P : A → Type ℓ) (p : FilePath) (w : World) (o : World × Result Error A)
    → Looks w.files P o
    → Spares p w o
Looks-Spares P p w o (kept, _) = ap (λ (f : Files). f p) kept

pub chain-Spares {ℓ κ} :
    {A : Type ℓ} {B : Type κ} (p : FilePath) (act : Action A) (next : A → Action B) (w : World)
    → Spares p w (act w)
    → ((later : World) (a : A) → Spares p later (next a later))
    → Spares p w ((act >>= next) w)
chain-Spares p act next w first rest =
    bind_rule (Spares p w) act next w (λ later e same. ap (λ o. o.0.files p) (sym same) ∙ first)
      (λ later a same. rest later a ∙ ap (λ o. o.0.files p) (sym same) ∙ first)
