-- ===== src/SaeGw/Parse/Rounds.antt =====
-- nw-sae-gw/NwSaeGwUeStateInit.c: the loops over the IEs of a bearer context end.
use linkerepc.Prelude.{
  ℕ, zero, suc, ◌+◌, ◌<◌, ◌≤◌, ◌≡◌, ◌≢◌, refl, sym, Bool, Option, some, arith, inl, inr, ltb,
  Bool-cases, le-cases, subst, if◌then◌else◌, true, ◌==◌, ap, ◌&&◌,
}
use linkerepc.Bytes.{Buffer}
use linkerepc.SaeGw.{EpsBearer}
use linkerepc.SaeGw.Remote.{created_loop, created_take_ie}
use linkerepc.SaeGw.Parse.Contexts.{
  IeRc, ie_ok, ie_missing, ie_incorrect, ie_failure, ie_aborts, Decoding, context_length, take_ie,
  decode_loop, removed_loop, modify_loop, modify_take_ie, decoded,
}

-- The loop ends with a result of parsing.
abbrev pub Ends : {A : Type 0} → Option (IeRc × A) → Type 0
Ends {A} r = (rc : IeRc) × (x : A) × (r ≡ some (rc, x)) × (rc ≢ ie_aborts)

-- Which result it is tells it apart from a failed assertion.
abbrev is_abort : IeRc → ℕ
is_abort ie_aborts = 1
is_abort ie_ok = 0
is_abort ie_missing = 0
is_abort ie_incorrect = 0
is_abort ie_failure = 0

not_aborted : (rc : IeRc) → is_abort rc ≡ 0 → rc ≢ ie_aborts
not_aborted rc z e = omega (arith, ap is_abort e)

result-Ends :
    {A : Type 0} (r : Option (IeRc × A)) (rc : IeRc) (x : A)
    → r ≡ some (rc, x)
    → is_abort rc ≡ 0
    → Ends r
result-Ends r rc x e z = (rc, x, e, not_aborted rc z)

Ends-if :
    {A : Type 0} (c : Bool) (rc : IeRc) (x : A) (rest : Option (IeRc × A))
    → is_abort rc ≡ 0
    → Ends rest
    → Ends (if c then some (rc, x) else rest)
Ends-if c rc x rest z (rc2, y, e, n) = elim (Bool-cases c) [
  | inl t ↦ result-Ends _ rc x (ground arith) z
  | inr f ↦ (rc2, y, ground arith, n)
]

last_rc : (f g : Bool) → is_abort (if f && g then ie_ok else ie_incorrect) ≡ 0
last_rc f g = ground arith

last_created : (f : Bool) → is_abort (if f then ie_ok else ie_incorrect) ≡ 0
last_created f = ground arith

last_removed : (f : Bool) → is_abort (if f then ie_ok else ie_missing) ≡ 0
last_removed f = ground arith

module _ (b : Buffer) (length end : ℕ) where
  module _ (k off : ℕ) where
    -- Past the end the result is that of the flags.
    decode_loop-last :
        (d : Decoding) → end ≤ off → decode_loop (suc k) b length end off d ≡ some (decoded d)
    unfolding decode_loop
    decode_loop-last d h = ground arith

    decode_loop-round :
        (d : Decoding)
        → off < end
        → decode_loop (suc k) b length end off d ≡ (
            if ltb (length + 4) (context_length b off)
            then some (ie_incorrect, d.eps_bearer)
            else decode_loop k b length end (off + (context_length b off + 4)) (take_ie b off d))
    unfolding decode_loop
    decode_loop-round d h = ground arith

    modify_loop-last :
        (x : EpsBearer) → end ≤ off → modify_loop (suc k) b length end off x ≡ some (ie_ok, x)
    unfolding modify_loop
    modify_loop-last x h = ground arith

    modify_loop-round :
        (x : EpsBearer)
        → off < end
        → modify_loop (suc k) b length end off x ≡ (
            if ltb (length + 4) (context_length b off)
            then some (ie_incorrect, x)
            else modify_loop k b length end
                (off + (context_length b off + 4))
                (modify_take_ie b off x))
    unfolding modify_loop
    modify_loop-round x h = ground arith

    created_loop-last :
        (d : Decoding)
        → end ≤ off
        → created_loop (suc k) b length end off d
          ≡ some (if d.ebi_flag then ie_ok else ie_incorrect, d.eps_bearer)
    unfolding created_loop
    created_loop-last d h = ground arith

    created_loop-round :
        (d : Decoding)
        → off < end
        → created_loop (suc k) b length end off d ≡ (
            if ltb (length + 4) (context_length b off)
            then some (ie_incorrect, d.eps_bearer)
            else created_loop k b length end
                (off + (context_length b off + 4))
                (created_take_ie b off d))
    unfolding created_loop
    created_loop-round d h = ground arith

    removed_loop-last :
        (flag : Bool) (ebi : ℕ)
        → end ≤ off
        → removed_loop (suc k) b length end off flag ebi
          ≡ some (if flag then ie_ok else ie_missing, ebi)
    unfolding removed_loop
    removed_loop-last flag ebi h = ground arith

    removed_loop-round :
        (flag : Bool) (ebi : ℕ)
        → off < end
        → removed_loop (suc k) b length end off flag ebi ≡ (
            if ltb (length + 4) (context_length b off)
            then some (ie_incorrect, ebi)
            else removed_loop k b length end
                (off + (context_length b off + 4))
                (if b off == 73 then true else flag)
                (if b off == 73 then b (off + 4) else ebi))
    unfolding removed_loop
    removed_loop-round flag ebi h = ground arith

  -- A round advances by four bytes or more.
  pub decode_loop-Ends :
      (k off : ℕ) (d : Decoding) → end ≤ off + k → Ends (decode_loop (suc k) b length end off d)
  decode_loop-Ends zero off d h =
      result-Ends _ _ d.eps_bearer (decode_loop-last zero off d (omega arith))
        (last_rc d.ebi_flag d.qos_flag)
  decode_loop-Ends (suc k) off d h =
      let next = off + (context_length b off + 4) in
      elim (le-cases end off) [
        | inl e ↦
            result-Ends _ _ d.eps_bearer (decode_loop-last (suc k) off d e)
              (last_rc d.ebi_flag d.qos_flag)
        | inr t ↦ subst Ends (sym (decode_loop-round (suc k) off d t)) (
            Ends-if (ltb (length + 4) (context_length b off)) ie_incorrect d.eps_bearer _ refl
              (decode_loop-Ends k next (take_ie b off d) (omega arith)))
      ]

  pub modify_loop-Ends :
      (k off : ℕ) (x : EpsBearer) → end ≤ off + k → Ends (modify_loop (suc k) b length end off x)
  modify_loop-Ends zero off x h = result-Ends _ _ x (modify_loop-last zero off x (omega arith)) refl
  modify_loop-Ends (suc k) off x h =
      let next = off + (context_length b off + 4) in
      elim (le-cases end off) [
        | inl e ↦ result-Ends _ _ x (modify_loop-last (suc k) off x e) refl
        | inr t ↦ subst Ends (sym (modify_loop-round (suc k) off x t)) (
            Ends-if (ltb (length + 4) (context_length b off)) ie_incorrect x _ refl
              (modify_loop-Ends k next (modify_take_ie b off x) (omega arith)))
      ]

  pub created_loop-Ends :
      (k off : ℕ) (d : Decoding) → end ≤ off + k → Ends (created_loop (suc k) b length end off d)
  created_loop-Ends zero off d h =
      result-Ends _ _ d.eps_bearer (created_loop-last zero off d (omega arith))
        (last_created d.ebi_flag)
  created_loop-Ends (suc k) off d h =
      let next = off + (context_length b off + 4) in
      elim (le-cases end off) [
        | inl e ↦
            result-Ends _ _ d.eps_bearer (created_loop-last (suc k) off d e)
              (last_created d.ebi_flag)
        | inr t ↦ subst Ends (sym (created_loop-round (suc k) off d t)) (
            Ends-if (ltb (length + 4) (context_length b off)) ie_incorrect d.eps_bearer _ refl
              (created_loop-Ends k next (created_take_ie b off d) (omega arith)))
      ]

  pub removed_loop-Ends :
      (k off : ℕ) (flag : Bool) (ebi : ℕ)
      → end ≤ off + k
      → Ends (removed_loop (suc k) b length end off flag ebi)
  removed_loop-Ends zero off flag ebi h =
      result-Ends _ _ ebi (removed_loop-last zero off flag ebi (omega arith)) (last_removed flag)
  removed_loop-Ends (suc k) off flag ebi h =
      let next = off + (context_length b off + 4) in
      elim (le-cases end off) [
        | inl e ↦ result-Ends _ _ ebi (removed_loop-last (suc k) off flag ebi e) (last_removed flag)
        | inr t ↦ subst Ends (sym (removed_loop-round (suc k) off flag ebi t)) (
            Ends-if (ltb (length + 4) (context_length b off)) ie_incorrect ebi _ refl
              (removed_loop-Ends k next _ _ (omega arith)))
      ]

-- The decoders of a bearer context end, whatever bytes the `length` from `off` on are: with a round for each
-- byte and one more, the loops that read one to be created, that was created, to be modified and to be removed
-- give a result of parsing, and never that of a failed assertion.
pub bearer_context-Ends :
    (b : Buffer) (off length : ℕ) (d : Decoding) (x : EpsBearer) (flag : Bool) (ebi : ℕ)
    → Ends (decode_loop (suc length) b length (off + length) off d)
      × Ends (created_loop (suc length) b length (off + length) off d)
      × Ends (modify_loop (suc length) b length (off + length) off x)
      × Ends (removed_loop (suc length) b length (off + length) off flag ebi)
bearer_context-Ends b off length d x flag ebi = (
  decode_loop-Ends b length (off + length) length off d (omega arith),
  created_loop-Ends b length (off + length) length off d (omega arith),
  modify_loop-Ends b length (off + length) length off x (omega arith),
  removed_loop-Ends b length (off + length) length off flag ebi (omega arith),
)
