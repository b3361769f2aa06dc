-- ===== src/SaeGw/Parse/Contexts.antt =====
-- nw-sae-gw/NwSaeGwUeStateInit.c and NwSaeGwUeStateSaeSessionCreated.c: reading the bearer contexts of a request.
use linkerepc.Prelude.{
  ℕ, zero, suc, ◌+◌, ◌/◌, ◌%◌, Bool, true, false, Option, none, some, ◌==◌, if◌then◌else◌, ltb, not,
  ◌&&◌, u8, htons, htonl,
}
use linkerepc.Bytes.{Buffer, load16, load32, copy}
use linkerepc.Gtpv2c.Msg.{Msg}
use linkerepc.Gtpv2c.Msg.Decode.{Get, found, missing, incorrect, aborts, get_ie_tlv_p}
use linkerepc.SaeGw.{Fteid, EpsBearer}

-- NW_OK, NW_GTPV2C_IE_MISSING, NW_GTPV2C_IE_INCORRECT, NW_FAILURE, and a failed assertion
pub data IeRc : Type 0 where
  ie_ok ie_missing ie_incorrect ie_failure ie_aborts : IeRc

-- `nwSaeGwDecodeFteid` of the value at an offset
abbrev pub decode_fteid : Buffer → ℕ → Fteid → Fteid
decode_fteid b v f =
    let is_ipv4 = not (b v / 128 % 2 == 0) in
    let is_ipv6 = not (b v / 64 % 2 == 0) in
    record {
      is_valid = true;
      is_ipv4 = is_ipv4;
      is_ipv6 = is_ipv6;
      if_type = b v % 32;
      teid_or_gre_key = htonl (load32 b (v + 1));
      ipv4_addr = if is_ipv4 then htonl (load32 b (v + 5)) else f.ipv4_addr;
      ipv6_addr =
          if is_ipv6
          then copy f.ipv6_addr 0 (λ k. b ((if is_ipv4 then v + 9 else v + 5) + k)) 16
          else f.ipv6_addr;
    }

-- `nwSaeGwDecodeBearerContextToBeCreated`: the loop over the IEs of a bearer context. The length of an IE is cut
-- to a byte.
pub record Decoding : Type 0 where
  pub eps_bearer : EpsBearer
  pub ebi_flag : Bool
  pub qos_flag : Bool

abbrev pub context_length : Buffer → ℕ → ℕ
context_length b off = u8 (htons (load16 b (off + 1)))

abbrev pub take_fteid : Buffer → ℕ → ℕ → EpsBearer → EpsBearer
take_fteid b v i x =
    if i == 0
    then record x { s1u_enodeb = decode_fteid b v x.s1u_enodeb }
    else if i == 2
    then record x { s5s8u_sgw = decode_fteid b v x.s5s8u_sgw }
    else if i == 3
    then record x { s5s8u_pgw = decode_fteid b v x.s5s8u_pgw }
    else x

abbrev pub take_ie : Buffer → ℕ → Decoding → Decoding
take_ie b off d =
    let t = b off in
    if t == 73
    then record d { ebi_flag = true; eps_bearer = record d.eps_bearer { ebi = b (off + 4) } }
    else if t == 87
    then record d { eps_bearer = take_fteid b (off + 4) (b (off + 3)) d.eps_bearer }
    else if t == 80
    then record d { qos_flag = true }
    else d

abbrev pub decoded : Decoding → IeRc × EpsBearer
decoded d = (if d.ebi_flag && d.qos_flag then ie_ok else ie_incorrect, d.eps_bearer)

-- `none` when the fuel runs out; an IE has four bytes or more, so that as many rounds as the context has bytes, and
-- one more, are enough.
unfoldable pub decode_loop : ℕ → Buffer → ℕ → ℕ → ℕ → Decoding → Option (IeRc × EpsBearer)
decode_loop zero b length end off d = none
decode_loop (suc k) b length end off d =
    let l = context_length b off in
    let rest = decode_loop k b length end (off + (l + 4)) (take_ie b off d) in
    if ltb off end
    then (if ltb (length + 4) l then some (ie_incorrect, d.eps_bearer) else rest)
    else some (decoded d)

abbrev pub or_aborts : EpsBearer → Option (IeRc × EpsBearer) → IeRc × EpsBearer
or_aborts x none = (ie_aborts, x)
or_aborts x (some r) = r

abbrev pub decode_context : Msg → EpsBearer → Get (ℕ × ℕ) → IeRc × EpsBearer
decode_context m x (found (off, length)) = or_aborts x (
    decode_loop (suc length) m.msg_buf length (off + length) off
      (record { eps_bearer = x; ebi_flag = false; qos_flag = false }))
decode_context m x missing = (ie_missing, x)
decode_context m x incorrect = (ie_incorrect, x)
decode_context m x aborts = (ie_aborts, x)

unfoldable pub decode_bearer_context_to_be_created : Msg → EpsBearer → IeRc × EpsBearer
decode_bearer_context_to_be_created m x = decode_context m x (get_ie_tlv_p m 93 0)

-- `nwSaeGwDecodeFteid` and `nwSaeGwDecodeBearerContextToBeCreated` of NwSaeGwUeStateSaeSessionCreated.c and
-- NwSaeGwUeStateSaeSessionEstablished.c, which leave `isValid`, read the FTEID of instance 0 only and ask for no IE.
abbrev pub modify_take_ie : Buffer → ℕ → EpsBearer → EpsBearer
modify_take_ie b off x =
    let t = b off in
    let f = record (decode_fteid b (off + 4) x.s1u_enodeb) { is_valid = x.s1u_enodeb.is_valid } in
    if t == 73
    then record x { ebi = b (off + 4) }
    else if t == 87
    then (if b (off + 3) == 0 then record x { s1u_enodeb = f } else x)
    else x

unfoldable pub modify_loop : ℕ → Buffer → ℕ → ℕ → ℕ → EpsBearer → Option (IeRc × EpsBearer)
modify_loop zero b length end off x = none
modify_loop (suc k) b length end off x =
    let l = context_length b off in
    let rest = modify_loop k b length end (off + (l + 4)) (modify_take_ie b off x) in
    if ltb off end
    then (if ltb (length + 4) l then some (ie_incorrect, x) else rest)
    else some (ie_ok, x)

abbrev pub modify_context : Msg → EpsBearer → Get (ℕ × ℕ) → IeRc × EpsBearer
modify_context m x (found (off, length)) =
    or_aborts x (modify_loop (suc length) m.msg_buf length (off + length) off x)
modify_context m x missing = (ie_missing, x)
modify_context m x incorrect = (ie_incorrect, x)
modify_context m x aborts = (ie_aborts, x)

unfoldable pub decode_modified_bearer_context : Msg → EpsBearer → IeRc × EpsBearer
decode_modified_bearer_context m x = modify_context m x (get_ie_tlv_p m 93 0)

-- `nwSaeGwDecodeBearerContextToBeRemoved`, which reads the context of instance 0 again.
unfoldable pub removed_loop : ℕ → Buffer → ℕ → ℕ → ℕ → Bool → ℕ → Option (IeRc × ℕ)
removed_loop zero b length end off flag ebi = none
removed_loop (suc k) b length end off flag ebi =
    let l = context_length b off in
    let is_ebi = b off == 73 in
    let rest =
      removed_loop k b length end (off + (l + 4)) (if is_ebi then true else flag)
        (if is_ebi then b (off + 4) else ebi) in
    if ltb off end
    then (if ltb (length + 4) l then some (ie_incorrect, ebi) else rest)
    else some (if flag then ie_ok else ie_missing, ebi)

abbrev removed_rc : Option (IeRc × ℕ) → IeRc
removed_rc none = ie_aborts
removed_rc (some (rc, ebi)) = rc

abbrev decode_removed : Msg → Get (ℕ × ℕ) → IeRc
decode_removed m (found (off, length)) =
    removed_rc (removed_loop (suc length) m.msg_buf length (off + length) off false 0)
decode_removed m missing = ie_ok
decode_removed m incorrect = ie_ok
decode_removed m aborts = ie_aborts

unfoldable pub decode_bearer_context_to_be_removed : Msg → IeRc
decode_bearer_context_to_be_removed m = decode_removed m (get_ie_tlv_p m 93 0)
