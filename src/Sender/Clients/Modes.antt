-- ===== src/Sender/Clients/Modes.antt =====
-- One of the two modes: its flag, its threads, its container, and what the socket thread knows.
use worker_unit.Base.{
  ◌≤◌, ◌≡◌, refl, sym, subst, Bool, true, false, Option, none, some, List, [], ◌∷◌, ◌++◌, arith,
  length, length-append, All,
}

-- If the socket thread has seen the flag unset, no thread of the mode runs.
abbrev pub Free {ℓ} : {P : Type ℓ} → Option Bool → List P → Type ℓ
Free none ts = Unit
Free (some true) ts = Unit
Free (some false) ts = ts ≡ []

-- At most one thread runs, it holds the flag, and the container has the packet that it sends.
pub record ModeInv {ℓ} {P : Type ℓ} (flag : Bool) (ts : List P) (container : Option P)
    (seen : Option Bool) : Type ℓ where
  pub one : length ts ≤ 1
  pub locked : 1 ≤ length ts → flag ≡ true
  pub held : All (λ p. container ≡ some p) ts
  pub free : Free seen ts

no_threads {ℓ} : {P : Type ℓ} (ts : List P) → (1 ≤ length ts → ⊥) → ts ≡ []
no_threads [] h = refl
no_threads (t ∷ ts) h = absurd (h (omega arith))

none_left {ℓ} : {P : Type ℓ} (ps qs : List P) (p : P) → length (ps ++ (p ∷ qs)) ≤ 1 → ps ++ qs ≡ []
none_left [] [] p h = refl
none_left [] (q ∷ qs) p h = absurd (omega arith)
none_left (t ∷ ps) qs p h = absurd (omega (arith, length-append ps (p ∷ qs)))

module _ {ℓ} {P : Type ℓ} {flag : Bool} {ts : List P} {container : Option P}
    {seen : Option Bool} where
  -- The thread reads the flag.
  pub ModeInv-see : ModeInv flag ts container seen → ModeInv flag ts container (some flag)
  ModeInv-see v = record {
    one = v.one;
    locked = v.locked;
    held = v.held;
    free = free_of flag v.locked;
  }
    where
      free_of : (b : Bool) → (1 ≤ length ts → b ≡ true) → Free (some b) ts
      free_of true h = tt
      free_of false h = no_threads ts (λ l. cc (h l))

  pub ModeInv-forget : ModeInv flag ts container seen → ModeInv flag ts container none
  ModeInv-forget v = record { one = v.one; locked = v.locked; held = v.held; free = tt }

  -- The flag may be set at any time.
  pub ModeInv-flag :
      (flag' : Bool)
      → (flag ≡ true → flag' ≡ true)
      → ModeInv flag ts container seen
      → ModeInv flag' ts container seen
  ModeInv-flag flag' h v = record {
    one = v.one;
    locked = λ l. h (v.locked l);
    held = v.held;
    free = v.free;
  }

  -- A thread that ends resets it.
  pub ModeInv-end :
      (before after : List P) (p : P) (flag' : Bool)
      → ts ≡ before ++ (p ∷ after)
      → ModeInv flag ts container seen
      → ModeInv flag' (before ++ after) container seen
  ModeInv-end before after p flag' e v =
      subst (λ us. ModeInv flag' us container seen)
        (sym (none_left before after p (subst (λ us. length us ≤ 1) e v.one)))
        (record {
          one = omega arith;
          locked = λ l. absurd (omega arith);
          held = tt;
          free = free_nil seen;
        })
    where
      free_nil : (s : Option Bool) → Free {P = P} s []
      free_nil none = tt
      free_nil (some true) = tt
      free_nil (some false) = refl

-- A thread is started by one who has seen the flag unset.
pub ModeInv-start {ℓ} :
    {P : Type ℓ} {flag : Bool} {ts : List P} {container : Option P} (p : P)
    → ModeInv flag ts container (some false)
    → ModeInv true (p ∷ ts) (some p) none
ModeInv-start p v =
    subst (λ us. ModeInv true (p ∷ us) (some p) none) (sym v.free)
      (record { one = omega arith; locked = λ l. refl; held = (refl, tt); free = tt })

pub ModeInv-begin {ℓ} :
    {P : Type ℓ} (flag : Bool) (ts : List P) (container : Option P)
    → ts ≡ []
    → ModeInv flag ts container none
ModeInv-begin flag ts container e =
    subst (λ us. ModeInv flag us container none) (sym e)
      (record { one = omega arith; locked = λ l. absurd (omega arith); held = tt; free = tt })
