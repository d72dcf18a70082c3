-- ===== src/Memory/Frames/Stack.antt =====
-- The intrusive stack of frames is a list of addresses.
use archipelago.Prelude.{
  ℕ, ◌-◌, ◌≡◌, ◌≢◌, refl, sym, ap, subst, arith, none, some, List, [], ◌∷◌, length, All, NotIn,
}
use archipelago.Memory.Frames.{Frame, Memory, store, set_word, FrameStack, nil, push, pop}

-- From `head` on, the first words lead through `fs`.
abbrev pub Chain : Memory → ℕ → List ℕ → Type 0
Chain m head [] = head ≡ nil
Chain m head (a ∷ fs) = (head ≡ a) × (a ≢ nil) × Chain m (m a).word fs

pub record IsStack (m : Memory) (s : FrameStack) (fs : List ℕ) : Type 0 where
  pub chain : Chain m s.head fs
  pub counted : s.count ≡ length fs

pub store_same : (m : Memory) (a : ℕ) (f : Frame) → store m a f a ≡ f
unfolding store
store_same m a f = ground arith

pub store_other : (m : Memory) (a x : ℕ) (f : Frame) → a ≢ x → store m a f x ≡ m x
unfolding store
store_other m a x f h = ground (arith, h)

-- What holds of the contents of frames other than the one that is written.
pub All-store {ℓ} :
    (P : Frame → Type ℓ) (m : Memory) (a : ℕ) (f : Frame) (xs : List ℕ)
    → NotIn a xs
    → All (λ x. P (m x)) xs
    → All (λ x. P (store m a f x)) xs
All-store P m a f [] n h = tt
All-store P m a f (x ∷ xs) n h =
    (subst P (sym (store_other m a x f n.0)) h.0, All-store P m a f xs n.1 h.1)

pub Chain-store :
    (m : Memory) (a : ℕ) (f : Frame) (head : ℕ) (fs : List ℕ)
    → NotIn a fs
    → Chain m head fs
    → Chain (store m a f) head fs
Chain-store m a f head [] n c = c
Chain-store m a f head (x ∷ xs) n c = (
  c.0,
  c.1,
  Chain-store m a f (store m a f x).word xs n.1
      (subst (λ (y : Frame). Chain m y.word xs) (sym (store_other m a x f n.0)) c.2),
)

pub IsStack-store :
    (m : Memory) (a : ℕ) (f : Frame) (s : FrameStack) (fs : List ℕ)
    → NotIn a fs
    → IsStack m s fs
    → IsStack (store m a f) s fs
IsStack-store m a f s fs n v = record {
  chain = Chain-store m a f s.head fs n v.chain;
  counted = v.counted;
}

pub push-IsStack :
    (m : Memory) (s : FrameStack) (fs : List ℕ) (a : ℕ)
    → a ≢ nil
    → NotIn a fs
    → IsStack m s fs
    → let (m', s') = push m s a in IsStack m' s' (a ∷ fs)
unfolding push
push-IsStack m s fs a h n v =
    let w : (set_word m a s.head a).word ≡ s.head = ap (λ (f : Frame). f.word) (store_same m a _) in
    record {
      chain = (
        refl,
        h,
        subst (λ x. Chain (set_word m a s.head) x fs) (sym w)
            (Chain-store m a _ s.head fs n v.chain),
      );
      counted = omega (arith, v.counted);
    }

pub pop_empty : (m : Memory) (s : FrameStack) → IsStack m s [] → pop m s ≡ (none, m, s)
unfolding pop
pop_empty m s v = ground (arith, v.chain)

-- The stack after a frame was popped.
abbrev pub popped : Memory → FrameStack → ℕ → FrameStack
popped m s a = record { head = (m a).word; count = s.count - 1 }

pub pop_top :
    (m : Memory) (s : FrameStack) (a : ℕ) (fs : List ℕ)
    → IsStack m s (a ∷ fs)
    → pop m s ≡ (some a, set_word m a 0, popped m s a)
unfolding pop
pop_top m s a fs v =
    subst (λ h. pop m (record s { head = h }) ≡ (some a, set_word m a 0, popped m s a))
      (sym v.chain.0) (ground (arith, v.chain.1))

pub popped-IsStack :
    (m : Memory) (s : FrameStack) (a : ℕ) (fs : List ℕ) (f : Frame)
    → NotIn a fs
    → IsStack m s (a ∷ fs)
    → IsStack (store m a f) (popped m s a) fs
popped-IsStack m s a fs f n v = record {
  chain = Chain-store m a f (m a).word fs n v.chain.2;
  counted = omega (arith, v.counted);
}
