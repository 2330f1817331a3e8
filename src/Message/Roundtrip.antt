-- ===== src/Message/Roundtrip.antt =====
-- `MergeMessage` and `SplitMessage` (message/message.go) together.
use blockchain_sharding.Base.{
  ℕ, zero, suc, ◌+◌, ◌-◌, ◌≤◌, ◌<◌, ◌≡◌, ◌≢◌, refl, ap, List, [], ◌∷◌, ◌++◌, true, not, none, some,
  arith, Bytes, nat_beq, ltb, leb, length, set, take, drop, replicate, keep, ◌>>=◌, All,
  length-append, drop-append_length, take-append_length, lt→ltb, ltb→lt, subst, inl, inr, ◌↔◌,
  Bool-cases, dec_lt, length-set,
}
use blockchain_sharding.Message.{
  fill, merge_message, split_message, pbft_message_types, clpa_message_types, broker_message_types,
  view_change_message_types,
}

-- The string has no zero byte and fits the prefix.
abbrev pub IsFramable : Bytes → Type 0
IsFramable t = All (λ v. v ≢ 0) t × (length t ≤ 30)

length-replicate : (n : ℕ) → length (replicate {A = ℕ} n 0) ≡ n
length-replicate zero = refl
length-replicate (suc n) = ap suc (length-replicate n)

set-append_length :
    (pre rest : Bytes) (w v : ℕ) → set (pre ++ w ∷ rest) (length pre) v ≡ pre ++ v ∷ rest
set-append_length [] rest w v = refl
set-append_length (x ∷ pre) rest w v = ap (◌∷◌ x) (set-append_length pre rest w v)

snoc_append : (pre ys : Bytes) (v : ℕ) → (pre ++ v ∷ []) ++ ys ≡ pre ++ v ∷ ys
snoc_append [] ys v = refl
snoc_append (x ∷ pre) ys v = ap (◌∷◌ x) (snoc_append pre ys v)

-- The loop overwrites the zeros behind what it has written.
fill_lem :
    (pre vs : Bytes) (k n : ℕ)
    → n ≡ length pre
    → length vs ≤ k
    → fill (pre ++ replicate k 0) n vs ≡ some (pre ++ (vs ++ replicate (k - length vs) 0))
unfolding fill
fill_lem pre [] k n e h = let z : k - 0 ≡ k = omega arith in rw z refl
fill_lem pre (v ∷ vs) zero n e h = absurd (omega arith)
fill_lem pre (v ∷ vs) (suc k) n e h =
    rw
      (
        e,
        lt→ltb (length pre) (length (pre ++ 0 ∷ replicate k 0))
            (omega (arith, length-append pre (0 ∷ replicate k 0))),
        set-append_length pre (replicate k 0) 0 v,
        ← snoc_append pre (replicate k 0) v,
        fill_lem (pre ++ v ∷ []) vs k (length pre + 1) (omega (arith, length-append pre (v ∷ [])))
            (omega arith),
        snoc_append pre (vs ++ replicate (k - length vs) 0) v,
      )
      (let z : suc k - suc (length vs) ≡ k - length vs = omega arith in rw z refl)

keep-append_zeros :
    (t : Bytes) (k : ℕ)
    → All (λ v. v ≢ 0) t
    → keep (λ v. not (nat_beq v 0)) (t ++ replicate k 0) ≡ t
keep-append_zeros [] zero h = refl
keep-append_zeros [] (suc k) h = keep-append_zeros [] k tt
keep-append_zeros (x ∷ t) k h = ground (arith, h.0, keep-append_zeros t k h.1)

padded : Bytes → Bytes
padded t = t ++ replicate (30 - length t) 0

length-padded : (t : Bytes) → length t ≤ 30 → length (padded t) ≡ 30
unfolding padded
length-padded t h =
    omega (arith, length-append t (replicate (30 - length t) 0), length-replicate (30 - length t))

-- A type of at most 30 bytes is padded with zeros to the prefix.
merge_message-padded :
    (t content : Bytes) → length t ≤ 30 → merge_message t content ≡ some (padded t ++ content)
unfolding merge_message padded
merge_message-padded t content h = rw (fill_lem [] t 30 0 refl h) refl

split-padded :
    (p t content : Bytes)
    → length p ≡ 30
    → keep (λ v. not (nat_beq v 0)) p ≡ t
    → split_message (p ++ content) ≡ some (t, content)
unfolding split_message
split-padded p t content h e =
    let long : leb 30 (length (p ++ content)) ≡ true = ground (arith, length-append p content) in
    let front : take 30 (p ++ content) ≡ p =
      subst (λ n. take n (p ++ content) ≡ p) h (take-append_length p content) in
    let back : drop 30 (p ++ content) ≡ content =
      subst (λ n. drop n (p ++ content) ≡ content) h (drop-append_length p content) in
    rw (long, front, back, e) refl

-- A message type of at most 30 bytes without a zero byte, and any content, are framed without a
-- panic, and come back unchanged when the message is split.
pub split-merge :
    (t content : Bytes)
    → IsFramable t
    → (merge_message t content >>= split_message) ≡ some (t, content)
unfolding padded
split-merge t content (nonzero, short) = rw (merge_message-padded t content short) (
    split-padded (padded t) t content (length-padded t short)
      (keep-append_zeros t (30 - length t) nonzero))

fill-none : (b t : Bytes) (i : ℕ) → i ≤ length b → length b < i + length t → fill b i t ≡ none
unfolding fill
fill-none b [] i h k = absurd (omega arith)
fill-none b (v ∷ vs) i h k = elim (Bool-cases (ltb i (length b))) [
  | inl e ↦ rw e (
      fill-none (set b i v) vs (i + 1) (omega (arith, ltb→lt i (length b) e, length-set b i v))
        (omega (arith, length-set b i v)))
  | inr e ↦ rw e refl
]

-- Framing panics exactly on a message type of more than 30 bytes, whatever the content.
merge_message-eq-none : (t content : Bytes) → (merge_message t content ≡ none) ↔ (30 < length t)
unfolding merge_message
merge_message-eq-none t content = (forward, backward)
  where
    forward : merge_message t content ≡ none → 30 < length t
    forward e = elim (dec_lt 30 (length t)) [
      | yes p ↦ p
      | no p ↦ absurd (cc (merge_message-padded t content (omega arith)))
    ]

    backward : 30 < length t → merge_message t content ≡ none
    backward h = rw (fill-none (replicate 30 0) t 0 (omega arith) (omega arith)) refl

abbrev Survives : Bytes → Type 0
Survives t = (content : Bytes) → (merge_message t content >>= split_message) ≡ some (t, content)

All-Survives : (ts : List Bytes) → All IsFramable ts → All Survives ts
All-Survives [] h = tt
All-Survives (t ∷ ts) h = (λ content. split-merge t content h.0, All-Survives ts h.1)

-- Every message type of the program.
abbrev declared_types : List Bytes
declared_types =
    pbft_message_types
    ++ (clpa_message_types ++ (broker_message_types ++ view_change_message_types))

declared-IsFramable : All IsFramable declared_types
declared-IsFramable = omega arith

-- Every message type that the program declares survives framing with any content.
declared_types_survive : All Survives declared_types
declared_types_survive = All-Survives declared_types declared-IsFramable
