-- ===== src/SaeGw/Sessions/Leases.antt =====
-- nw-sae-gw/NwSaeGwUlp.c: the addresses of the UEs that are registered in a PGW, against the pool.
use linkerepc.Prelude.{
  ℕ, ◌≡◌, ◌≢◌, sym, ap, ◌∙◌, subst, ◌⊎◌, inl, inr, true, List, [], ◌∷◌, Option, none, some, arith,
  set, set-here, set-there, eq-cases,
}
use linkerepc.Trees.{Key, TreeOps, IsMap, Key-cases}
use linkerepc.IpPool.{IpPool, address}
use linkerepc.IpPool.Ledger.{Ledger}
use linkerepc.IpPool.Ledger.Freeing.{Present, strike}
use linkerepc.SaeGw.{Ue}

-- The address 0, or one that the pool has lent.
abbrev pub Lease : IpPool → List ℕ → ℕ → Type 0
Lease p ys a = (a ≡ 0) ⊎ ((y : ℕ) × Present y ys × (a ≡ address p y))

-- Of a pool that has lent the descriptors `ys`, the tree of a PGW, and the UEs: each UE in the tree is marked as
-- registered, knows its place in the tree, and has no address or one that is lent; no two have the same.
pub record Leased (t : TreeOps) (p : IpPool) (m : t.Tree) (ue : ℕ → Ue) (xs ys : List ℕ)
    : Type 0 where
  pub ledger : Ledger p xs ys
  pub node : (k : Key) (u : ℕ) → t.find m k ≡ some u → (ue u).pgw_node ≡ k
  pub flag : (k : Key) (u : ℕ) → t.find m k ≡ some u → (ue u).is_pgw ≡ true
  pub lease : (k : Key) (u : ℕ) → t.find m k ≡ some u → Lease p ys (ue u).paa.ipv4_addr
  pub alone :
      (k l : Key) (u v : ℕ)
      → t.find m k ≡ some u
      → t.find m l ≡ some v
      → (ue u).paa.ipv4_addr ≡ (ue v).paa.ipv4_addr
      → ((ue u).paa.ipv4_addr ≡ 0) ⊎ (k ≡ l)

Present-strike : (y z : ℕ) (ys : List ℕ) → z ≢ y → Present z ys → Present z (strike y ys)
Present-strike y z [] d h = absurd h
Present-strike y z (x ∷ xs) d (inl e) = ground arith
Present-strike y z (x ∷ xs) d (inr h) = ground (arith, Present-strike y z xs d h)

pub address-kept : (p q : IpPool) (y : ℕ) → q.start_ip ≡ p.start_ip → address p y ≡ address q y
address-kept p q y e = cc

module _ (p q : IpPool) (ys : List ℕ) (e : q.start_ip ≡ p.start_ip) where
  pub Lease-more : (i a : ℕ) → Lease p ys a → Lease q (i ∷ ys) a
  Lease-more i a (inl z) = inl z
  Lease-more i a (inr (y, m, h)) = inr (y, inr m, h ∙ address-kept p q y e)

  pub Lease-same : (a : ℕ) → Lease p ys a → Lease q ys a
  Lease-same a (inl z) = inl z
  Lease-same a (inr (y, m, h)) = inr (y, m, h ∙ address-kept p q y e)

  pub Lease-struck : (z a : ℕ) → (a ≡ address p z → a ≡ 0) → Lease p ys a → Lease q (strike z ys) a
  Lease-struck z a d (inl e0) = inl e0
  Lease-struck z a d (inr (y, m, h)) = elim (eq-cases y z) [
    | inl s ↦ inl (d (h ∙ ap (address p) s))
    | inr s ↦ inr (y, Present-strike z y ys (λ s2. omega arith) m, h ∙ address-kept p q y e)
  ]

some-injective : {a b : ℕ} → ◌≡◌ {A = Option ℕ} (some a) (some b) → a ≡ b
some-injective e = cc

nothing : {a : ℕ} → ◌≡◌ {A = Option ℕ} none (some a) → ⊥
nothing e = cc

addr : {x y : Ue} → x ≡ y → x.paa.ipv4_addr ≡ y.paa.ipv4_addr
addr e = ap (λ (z : Ue). z.paa.ipv4_addr) e

none_shared : {a : ℕ} {k l : Key} → (a ≡ 0) ⊎ (k ≡ l) → l ≢ k → a ≡ 0
none_shared (inl z) d = z
none_shared (inr e) d = absurd (d (sym e))

module _ {t : TreeOps} (law : IsMap t) (p q : IpPool) (m : t.Tree) (ue : ℕ → Ue)
    (xs ys : List ℕ) where
  module _ (l : Leased t p m ue xs ys) (u : ℕ) (x : Ue) (xs2 ys2 : List ℕ)
      (good : Ledger q xs2 ys2) where
    -- The UE `u`, which is nowhere in the tree, is put there as `x`.
    module _ (absent : (k : Key) → t.find m k ≢ some u) where
      entered :
          (k0 k : Key) (v : ℕ)
          → t.find (t.insert m k0 u) k ≡ some v
          → ((k0 ≡ k) × (set ue u x v ≡ x)) ⊎ ((t.find m k ≡ some v) × (set ue u x v ≡ ue v))
      entered k0 k v h = elim (Key-cases k0 k) [
        | inl e ↦
            let f = subst (λ z. t.find (t.insert m k0 u) z ≡ some u) e (law.found m k0 u) in
            inl (e, set-here ue u v x (some-injective (sym f ∙ h)))
        | inr d ↦
            let old = sym (law.kept m k0 k u d) ∙ h in
            inr (old, set-there ue u v x (λ s. absent k (old ∙ ap some (sym s))))
      ]

      pub Leased-enter :
          x.is_pgw ≡ true
          → ((a : ℕ) → Lease p ys a → Lease q ys2 a)
          → Lease q ys2 x.paa.ipv4_addr
          → ((a : ℕ) → Lease p ys a → a ≡ x.paa.ipv4_addr → a ≡ 0)
          → Leased t q (t.insert m x.pgw_node u) (set ue u x) xs2 ys2
      Leased-enter marked keep mine fresh = record {
        ledger = good;
        node = λ k v h. elim (entered x.pgw_node k v h) [
          | inl (e, s) ↦ ap (λ (z : Ue). z.pgw_node) s ∙ e
          | inr (old, s) ↦ ap (λ (z : Ue). z.pgw_node) s ∙ l.node k v old
        ];
        flag = λ k v h. elim (entered x.pgw_node k v h) [
          | inl (e, s) ↦ ap (λ (z : Ue). z.is_pgw) s ∙ marked
          | inr (old, s) ↦ ap (λ (z : Ue). z.is_pgw) s ∙ l.flag k v old
        ];
        lease = λ k v h. elim (entered x.pgw_node k v h) [
          | inl (e, s) ↦ subst (λ (z : Ue). Lease q ys2 z.paa.ipv4_addr) (sym s) mine
          | inr (old, s) ↦
              subst (λ (z : Ue). Lease q ys2 z.paa.ipv4_addr) (sym s) (keep _ (l.lease k v old))
        ];
        alone = λ k k2 v w h h2 same. elim (entered x.pgw_node k v h) [
          | inl (e, s) ↦ elim (entered x.pgw_node k2 w h2) [
            | inl (e2, s2) ↦ inr (sym e ∙ e2)
            | inr (old2, s2) ↦
                let a = sym (addr s2) ∙ sym same ∙ addr s in
                inl (addr s ∙ sym a ∙ fresh _ (l.lease k2 w old2) a)
          ]
          | inr (old, s) ↦ elim (entered x.pgw_node k2 w h2) [
            | inl (e2, s2) ↦
                inl (addr s ∙ fresh _ (l.lease k v old) (sym (addr s) ∙ same ∙ addr s2))
            | inr (old2, s2) ↦ elim (l.alone k k2 v w old old2 (sym (addr s) ∙ same ∙ addr s2)) [
              | inl z ↦ inl (addr s ∙ z)
              | inr z ↦ inr z
            ]
          ]
        ];
      }

    -- The UE `u` leaves its place, and is `x` then.
    module _ (k0 : Key) (there : t.find m k0 ≡ some u) where
      remained :
          (k : Key) (v : ℕ)
          → t.find (t.remove m k0) k ≡ some v
          → (t.find m k ≡ some v) × (k0 ≢ k) × (set ue u x v ≡ ue v)
      remained k v h = elim (Key-cases k0 k) [
        | inl e ↦
            absurd
              (nothing (sym (subst (λ z. t.find (t.remove m k0) z ≡ none) e (law.gone m k0)) ∙ h))
        | inr d ↦
            let old = sym (law.left m k0 k d) ∙ h in
            (
              old,
              d,
              set-there ue u v x
                  λ s. d (sym (l.node k0 u there) ∙ ap (λ z. (ue z).pgw_node) s ∙ l.node k v old),
            )
      ]

      pub Leased-leave :
          ((a : ℕ) → Lease p ys a → (a ≡ (ue u).paa.ipv4_addr → a ≡ 0) → Lease q ys2 a)
          → Leased t q (t.remove m k0) (set ue u x) xs2 ys2
      Leased-leave keep = record {
        ledger = good;
        node = λ k v h.
            let (old, d, s) = remained k v h in ap (λ (z : Ue). z.pgw_node) s ∙ l.node k v old;
        flag = λ k v h.
            let (old, d, s) = remained k v h in ap (λ (z : Ue). z.is_pgw) s ∙ l.flag k v old;
        lease = λ k v h.
            let (old, d, s) = remained k v h in
            subst (λ (z : Ue). Lease q ys2 z.paa.ipv4_addr) (sym s)
              (keep _ (l.lease k v old) (λ same. none_shared (l.alone k k0 v u old there same) d));
        alone = λ k k2 v w h h2 same.
            let (old, d, s) = remained k v h in
            let (old2, d2, s2) = remained k2 w h2 in
            elim (l.alone k k2 v w old old2 (sym (addr s) ∙ same ∙ addr s2)) [
              | inl z ↦ inl (addr s ∙ z)
              | inr z ↦ inr z
            ];
      }

-- Another store of the UEs in which they have the same marks, places and addresses.
module _ {t : TreeOps} (p : IpPool) (m : t.Tree) (ue ue2 : ℕ → Ue) (xs ys : List ℕ) where
  pub Leased-alike :
      ((u : ℕ) → (ue2 u).pgw_node ≡ (ue u).pgw_node)
      → ((u : ℕ) → (ue2 u).is_pgw ≡ (ue u).is_pgw)
      → ((u : ℕ) → (ue2 u).paa.ipv4_addr ≡ (ue u).paa.ipv4_addr)
      → Leased t p m ue xs ys
      → Leased t p m ue2 xs ys
  Leased-alike nodes flags addrs l = record {
    ledger = l.ledger;
    node = λ k u h. nodes u ∙ l.node k u h;
    flag = λ k u h. flags u ∙ l.flag k u h;
    lease = λ k u h. subst (Lease p ys) (sym (addrs u)) (l.lease k u h);
    alone = λ k k2 u v h h2 same. elim (l.alone k k2 u v h h2 (sym (addrs u) ∙ same ∙ addrs v)) [
      | inl z ↦ inl (addrs u ∙ z)
      | inr z ↦ inr z
    ];
  }

-- A field that the new value of a UE shares with the old one is the same in the whole store.
pub field-alike :
    {A : Type 0} (f : Ue → A) (ue : ℕ → Ue) (p : ℕ) (x : Ue) (u : ℕ)
    → f x ≡ f (ue p)
    → f (set ue p x u) ≡ f (ue u)
field-alike f ue p x u e = elim (eq-cases p u) [
  | inl s ↦ ap f (set-here ue p u x s) ∙ e ∙ ap (λ z. f (ue z)) s
  | inr s ↦ ap f (set-there ue p u x (λ z. omega arith))
]
