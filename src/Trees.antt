-- ===== src/Trees.antt =====
-- The red-black trees of common/tree.h, a third-party header, as an interface: maps from keys to pointers.
-- Functions are one that has the laws.
use linkerepc.Prelude.{
  ℕ, ◌≡◌, ◌≢◌, ap, arith, Bool, true, false, ◌&&◌, inl, inr, ◌⊎◌, ◌<◌, eq-cases, Option, none, some,
  ◌==◌, if◌then◌else◌, Bool-cases,
}

-- The fields that a comparator reads: sequence number or TEID, peer address, and port (0 where it is
-- not compared).
pub record Key : Type 0 where
  pub number : ℕ
  pub peer_ip : ℕ
  pub peer_port : ℕ

-- RB_FIND, RB_INSERT of an element with a new key, RB_REMOVE.
pub record TreeOps : Type 1 where
  pub Tree : Type 0
  pub find : Tree → Key → Option ℕ
  pub insert : Tree → Key → ℕ → Tree
  pub remove : Tree → Key → Tree

-- The documented behaviour of the trees.
pub record IsMap (t : TreeOps) : Type 0 where
  pub found : (m : t.Tree) (k : Key) (p : ℕ) → t.find (t.insert m k p) k ≡ some p
  pub kept : (m : t.Tree) (k l : Key) (p : ℕ) → k ≢ l → t.find (t.insert m k p) l ≡ t.find m l
  pub gone : (m : t.Tree) (k : Key) → t.find (t.remove m k) k ≡ none
  pub left : (m : t.Tree) (k l : Key) → k ≢ l → t.find (t.remove m k) l ≡ t.find m l

abbrev pub same_key : Key → Key → Bool
same_key k l = (k.number == l.number) && ((k.peer_ip == l.peer_ip) && (k.peer_port == l.peer_port))

abbrev pub trees : TreeOps
trees = record {
  Tree = Key → Option ℕ;
  find = λ m k. m k;
  insert = λ m k p l. if same_key k l then some p else m l;
  remove = λ m k l. if same_key k l then none else m l;
}

same_key_refl : (k : Key) → same_key k k ≡ true
same_key_refl k = ground arith

pub Key-cases : (k l : Key) → (k ≡ l) ⊎ (k ≢ l)
Key-cases k l = elim (eq-cases k.number l.number) [
  | inr a ↦ inr λ e. absurd (apart a (ap (λ (x : Key). x.number) e))
  | inl a ↦ elim (eq-cases k.peer_ip l.peer_ip) [
    | inr b ↦ inr λ e. absurd (apart b (ap (λ (x : Key). x.peer_ip) e))
    | inl b ↦ elim (eq-cases k.peer_port l.peer_port) [
      | inr c ↦ inr λ e. absurd (apart c (ap (λ (x : Key). x.peer_port) e))
      | inl c ↦ inl λ i. record { number = a i; peer_ip = b i; peer_port = c i }
    ]
  ]
]
  where
    apart : {m n : ℕ} → (m < n) ⊎ (n < m) → m ≢ n
    apart h e = omega arith

same_key_ne : (k l : Key) → k ≢ l → same_key k l ≡ false
same_key_ne k l d = elim (Bool-cases (same_key k l)) [
  | inl e ↦ absurd (d (equal k l (ground arith) (ground arith) (ground arith)))
  | inr e ↦ e
]
  where
    equal :
        (k l : Key)
        → k.number ≡ l.number
        → k.peer_ip ≡ l.peer_ip
        → k.peer_port ≡ l.peer_port
        → k ≡ l
    equal k l a b c = λ i. record { number = a i; peer_ip = b i; peer_port = c i }

pub trees-IsMap : IsMap trees
trees-IsMap = record {
  found = λ m k p. ap (λ c. if c then some p else m k) (same_key_refl k);
  kept = λ m k l p d. ap (λ c. if c then some p else m l) (same_key_ne k l d);
  gone = λ m k. ap (λ c. if c then none else m k) (same_key_refl k);
  left = λ m k l d. ap (λ c. if c then none else m l) (same_key_ne k l d);
}
