-- ===== src/SaeGw/Parse.antt =====
-- nw-sae-gw/NwSaeGwUeStateInit.c: reading the requests of peers. `pMsg` has been parsed by the stack; its IEs
-- are read with the functions of NwGtpv2cMsg.c.
pub mod Contexts
pub mod Rounds
unfoldable pub use Contexts.*
use linkerepc.Prelude.{
  ℕ, zero, suc, ◌+◌, ◌/◌, ◌%◌, Bool, true, false, Option, none, some, ◌==◌, if◌then◌else◌, ltb, not,
  ◌&&◌, u8, htons, htonl,
}
use linkerepc.Bytes.{Buffer, load16, load32, copy}
use linkerepc.Gtpv2c.Msg.{Msg}
use linkerepc.Gtpv2c.Msg.Decode.{
  Get, found, missing, incorrect, aborts, get_ie_tv1, get_ie_tv2, get_ie_tlv, get_ie_tlv_p,
  get_ie_fteid,
}
use linkerepc.SaeGw.{Fteid, Paa, EpsBearer, Ue}

-- What parsing works on: the UE, the bearer of the request on the stack, the indication, and the IE
-- that is reported.
pub record Reading : Type 0 where
  pub ue : Ue
  pub eps_bearer : EpsBearer
  pub indication : Option ℕ
  pub offending : ℕ × ℕ

abbrev pub Step : Type 0
Step = Reading → IeRc × Reading

-- The value of an IE is stored, if it is found.
abbrev pub stored : {A : Type 0} → Get A → (A → Ue → Ue) → Step
stored (found a) f r = (ie_ok, record r { ue = f a r.ue })
stored missing f r = (ie_missing, r)
stored incorrect f r = (ie_incorrect, r)
stored aborts f r = (ie_aborts, r)

-- A check, and what follows if it ends with NW_OK; otherwise its IE is reported.
abbrev pub checked : ℕ → ℕ → Step → IeRc × Reading → IeRc × Reading
checked type instance_no next (ie_ok, r) = next r
checked type instance_no next (ie_missing, r) =
    (ie_missing, record r { offending = (type, instance_no) })
checked type instance_no next (ie_incorrect, r) =
    (ie_incorrect, record r { offending = (type, instance_no) })
checked type instance_no next (ie_failure, r) =
    (ie_failure, record r { offending = (type, instance_no) })
checked type instance_no next (ie_aborts, r) =
    (ie_aborts, record r { offending = (type, instance_no) })

-- The check of an IE that may be missing.
abbrev pub lenient : IeRc × Reading → IeRc × Reading
lenient (ie_missing, r) = (ie_ok, r)
lenient (ie_ok, r) = (ie_ok, r)
lenient (ie_incorrect, r) = (ie_incorrect, r)
lenient (ie_failure, r) = (ie_ok, r)
lenient (ie_aborts, r) = (ie_aborts, r)

abbrev pub check : ℕ → ℕ → Step → Step → Step
check type instance_no read next r = checked type instance_no next (read r)

abbrev pub check_bearer : Msg → Step → Step
check_bearer m next r =
    let (rc, x) = decode_bearer_context_to_be_created m r.eps_bearer in
    checked 93 0 next (rc, record r { eps_bearer = x })

abbrev pub check_modified : Msg → Step → Step
check_modified m next r =
    let (rc, x) = decode_modified_bearer_context m r.eps_bearer in
    checked 93 0 next (rc, record r { eps_bearer = x })

-- The bearer context of instance 1 makes the code look at the one to be removed; `i` is the instance that it reports.
abbrev removed_step : Msg → ℕ → Step → Get (ℕ × ℕ) → Step
removed_step m i next (found x) r = checked 93 i next (decode_bearer_context_to_be_removed m, r)
removed_step m i next missing r = next r
removed_step m i next incorrect r = next r
removed_step m i next aborts r = (ie_aborts, r)

abbrev pub check_removed : Msg → ℕ → Step → Step
check_removed m i next r = removed_step m i next (get_ie_tlv_p m 93 1) r

-- `nwGtpv2cMsgGetIeFteid` into an FTEID
abbrev pub fteid_of : ℕ × ℕ × Option ℕ → Fteid → Fteid
fteid_of (type, key, none) f = record f { if_type = type; teid_or_gre_key = key }
fteid_of (type, key, some addr) f = record f {
  if_type = type;
  teid_or_gre_key = key;
  ipv4_addr = addr;
}

-- `nwSaeGwDecodePaa`, whose type is stored whatever follows.
abbrev paa_of : Msg → Get (ℕ × ℕ) → Step
paa_of m (found (off, length)) r =
    let type = m.msg_buf off in
    let x = r.ue in
    if type == 1
    then (
      ie_ok,
      record r {
        ue = record x { paa = record { pdn_type = type; ipv4_addr = load32 m.msg_buf (off + 1) } };
      },
    )
    else (ie_failure, record r { ue = record x { paa = record x.paa { pdn_type = type } } })
paa_of m missing r = (ie_missing, r)
paa_of m incorrect r = (ie_incorrect, r)
paa_of m aborts r = (ie_aborts, r)

abbrev pub decode_paa : Msg → Step
decode_paa m r = paa_of m (get_ie_tlv_p m 79 0) r

abbrev indicated : Get ℕ → Step
indicated (found n) r = (ie_ok, record r { indication = some n })
indicated missing r = (ie_ok, record r { indication = none })
indicated incorrect r = (ie_ok, record r { indication = none })
indicated aborts r = (ie_aborts, r)

-- The IEs that both requests have, from the serving network or the RAT type on.
abbrev pub read_imsi : Msg → Step
read_imsi m r = stored (get_ie_tlv m 1 0 8 r.ue.imsi) (λ v x. record x { imsi = v.0 }) r

abbrev read_ms_isdn : Msg → Step
read_ms_isdn m r = stored (get_ie_tlv m 76 0 8 r.ue.ms_isdn) (λ v x. record x { ms_isdn = v.0 }) r

abbrev read_mei : Msg → Step
read_mei m r = stored (get_ie_tlv m 75 0 8 r.ue.mei) (λ v x. record x { mei = v.0 }) r

abbrev read_network : Msg → Step
read_network m r =
    stored (get_ie_tlv m 83 0 3 r.ue.serving_network) (λ v x. record x { serving_network = v.0 }) r

abbrev read_rat_type : Msg → Step
read_rat_type m = stored (get_ie_tv1 m 82 0) λ n x. record x { rat_type = n }

-- From the selection mode on.
abbrev read_rest : Msg → Step
read_rest m = check 128 0 (stored (get_ie_tv1 m 128 0) λ n x. record x { sel_mode = n }) (
    check 99 0 (stored (get_ie_tv1 m 99 0) λ n x. record x { pdn_type = n }) (
      check 79 0 (decode_paa m) (
        check 71 0
          (λ r.
            stored (get_ie_tlv m 71 0 256 r.ue.apn)
              (λ v x. record x { apn = v.0; apn_length = v.1 }) r)
          (check 127 0 (stored (get_ie_tv1 m 127 0) λ n x. record x { apn_res = n })
            (indicated (get_ie_tv2 m 77 0))))))

-- `nwSaeGwUePgwParseCreateSessionRequest`
unfoldable pub pgw_parse_create_session_request : Msg → Step
pgw_parse_create_session_request m = check 1 0 (read_imsi m) (
    check 87 0 (stored (get_ie_fteid m 0) λ v x. record x { s5s8c_sgw = fteid_of v x.s5s8c_sgw }) (
      check_bearer m (
        check_removed m 1 (
          check 76 0 (read_ms_isdn m) (
            check 75 0 (read_mei m)
              (check 83 0 (read_network m) (check 82 0 (read_rat_type m) (read_rest m))))))))

-- `nwSaeGwUeSgwParseCreateSessionRequest`. Without the IMSI the FTEID of the MME is read all the same.
abbrev without_imsi : Msg → Step → IeRc × Reading → IeRc × Reading
without_imsi m next (ie_ok, r) = next r
without_imsi m next (rc, r) =
    let (c, x) =
      stored (get_ie_fteid m 0) (λ v x. record x { s11c_mme = fteid_of v x.s11c_mme }) r in
    (ie_incorrect, record x { offending = (1, 0) })

unfoldable pub sgw_parse_create_session_request : Msg → Step
sgw_parse_create_session_request m r =
    without_imsi m
      (check 87 0 (stored (get_ie_fteid m 0) λ v x. record x { s11c_mme = fteid_of v x.s11c_mme }) (
        check 87 1
          (stored (get_ie_fteid m 1) λ v x. record x { s5s8c_pgw = fteid_of v x.s5s8c_pgw })
          (check_bearer m (
            check_removed m 0 (
              check 82 0 (read_rat_type m) (
                check 76 0 (λ r. lenient (read_ms_isdn m r))
                  (check 75 0 (λ r. lenient (read_mei m r))
                    (check 83 0 (read_network m) (read_rest m)))))))))
      (read_imsi m r)

-- `nwSaeGwUeSgwParseModifyBearerRequest` (NwSaeGwUeStateSaeSessionCreated.c)
unfoldable pub parse_modify_bearer_request : Msg → Step
parse_modify_bearer_request m = check_modified m (check_removed m 0 λ r. (ie_ok, r))
