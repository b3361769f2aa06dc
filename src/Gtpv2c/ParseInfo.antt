-- ===== src/Gtpv2c/ParseInfo.antt =====
-- nw-gtpv2c/src/NwGtpv2cMsgIeParseInfo.c: finding the IEs of a received message.
pub mod Tables
pub mod Loop
pub mod Accept
pub mod Wellformed
use linkerepc.Prelude.{
  ℕ, zero, suc, ◌+◌, ◌-◌, ◌*◌, ◌/◌, ◌%◌, Bool, true, false, Option, none, some, List, [], ◌∷◌, ◌==◌,
  if◌then◌else◌, ◌&&◌, not, ltb, u8, u16, htons,
}
use linkerepc.Bytes.{Buffer, load16}
use linkerepc.Gtpv2c.Msg.{Msg}
use Tables.{
  IeInfo, mandatory, optional, echo_rsp_table, create_session_req_table, create_session_rsp_table,
  delete_session_req_table, delete_session_rsp_table, modify_bearer_req_table,
  modify_bearer_rsp_table,
}

-- `NwGtpv2cMsgIeParseInfoT`, its table indexed by type * 4 + instance. Every `pGroupedIeInfo` is NULL,
-- so grouped IEs are not parsed.
pub record ParseInfo : Type 0 where
  pub mandatory_ie_count : ℕ
  pub ie_presence : ℕ → ℕ
  pub ie_min_length : ℕ → ℕ

abbrev pub update {ℓ} : {A : Type ℓ} → (ℕ → A) → ℕ → A → ℕ → A
update f i v j = if i == j then v else f j

abbrev pub slot_of : ℕ → ℕ → ℕ
slot_of ie_type ie_instance = ie_type * 4 + ie_instance

-- One round of `nwGtpv2cMsgIeParseInfoUpdate`.
abbrev pub add_info : ParseInfo → IeInfo → ParseInfo
add_info p r = record p {
  ie_presence = update p.ie_presence (slot_of r.ie_type r.ie_instance) r.ie_presence;
  ie_min_length = update p.ie_min_length (slot_of r.ie_type r.ie_instance) r.ie_min_length;
  mandatory_ie_count =
      if r.ie_presence == mandatory then u16 (p.mandatory_ie_count + 1) else p.mandatory_ie_count;
}

-- `nwGtpv2cMsgIeParseInfoUpdate`: the loop ends at a type 0, or at the end of the list, where the
-- tables have one.
unfoldable pub parse_info_update : ParseInfo → List IeInfo → ParseInfo
parse_info_update p [] = p
parse_info_update p (r ∷ rs) =
    let rest = parse_info_update (add_info p r) rs in if r.ie_type == 0 then p else rest

-- The object after the `memset`.
abbrev pub cleared : ParseInfo
cleared = record { mandatory_ie_count = 0; ie_presence = λ _. 0; ie_min_length = λ _. 0 }

-- `nwGtpv2cMsgIeParseInfoNew`, the allocation taken to succeed; NULL for any other message type.
unfoldable pub parse_info_new : ℕ → Option ParseInfo
unfolding parse_info_update
parse_info_new msg_type =
    if msg_type == 2
    then some (parse_info_update cleared echo_rsp_table)
    else if msg_type == 32
    then some (parse_info_update cleared create_session_req_table)
    else if msg_type == 33
    then some (parse_info_update cleared create_session_rsp_table)
    else if msg_type == 36
    then some (parse_info_update cleared delete_session_req_table)
    else if msg_type == 37
    then some (parse_info_update cleared delete_session_rsp_table)
    else if msg_type == 34
    then some (parse_info_update cleared modify_bearer_req_table)
    else if msg_type == 35
    then some (parse_info_update cleared modify_bearer_rsp_table)
    else none

-- What the parser has found: `isIeValid`, `pIe` and `mandatoryIeCount`.
pub record Progress : Type 0 where
  pub valid : ℕ → Bool
  pub ie : ℕ → ℕ
  pub mandatory_found : ℕ

-- The part of a round for an IE of known length in slot `i` at offset `off`: `none` is a value that is
-- too short for an IE that is not optional.
unfoldable pub handle_ie : ParseInfo → Progress → ℕ → ℕ → ℕ → Option Progress
handle_ie info p i len off =
    if info.ie_presence i == 0
    then some p
    else if ltb len (info.ie_min_length i)
    then (if info.ie_presence i == optional then some p else none)
    else if p.valid i
    then some p
    else some (record {
      valid = update p.valid i true;
      ie = update p.ie i off;
      mandatory_found =
          if info.ie_presence i == mandatory
          then u16 (p.mandatory_found + 1)
          else p.mandatory_found;
    })

-- How the loop ends: at the end of the message; with an error, its cause and the offending IE; by
-- the failed assertion that the instance is at most 4; or by a read behind the row of a table, for
-- the instance 4 (the rows have four entries).
pub data Scan : Type 0 where
  finished : Progress → Scan
  bad_ie : ℕ → ℕ → ℕ → Progress → Scan
  aborts behind_row out_of_fuel : Scan

abbrev pub invalid_length : ℕ
invalid_length = 67

abbrev pub mandatory_ie_incorrect : ℕ
mandatory_ie_incorrect = 69

abbrev pub mandatory_ie_missing : ℕ
mandatory_ie_missing = 70

-- The IE at an offset.
abbrev pub type_at : Buffer → ℕ → ℕ
type_at b off = b off

abbrev pub length_at : Buffer → ℕ → ℕ
length_at b off = htons (load16 b (off + 1))

abbrev pub instance_at : Buffer → ℕ → ℕ
instance_at b off = b (off + 3) % 16

abbrev pub slot_at : Buffer → ℕ → ℕ
slot_at b off = slot_of (type_at b off) (instance_at b off)

-- The loop of `nwGtpv2cMsgIeParse` from the offset `off` to the end of the message.
unfoldable pub scan : ℕ → ParseInfo → Buffer → ℕ → ℕ → Progress → Scan
scan zero info b end off p = out_of_fuel
scan (suc k) info b end off p =
    let len = length_at b off in
    let type = type_at b off in
    let instance_no = instance_at b off in
    let round : Scan = elim (handle_ie info p (slot_of type instance_no) len off) [
      | none ↦ bad_ie mandatory_ie_incorrect type instance_no p
      | some p' ↦ scan k info b end (off + (len + 4)) p'
    ] in
    if ltb off end
    then (if ltb 4 instance_no
        then aborts
        else if ltb end (off + 4 + len)
        then bad_ie invalid_length type instance_no p
        else if instance_no == 4
        then behind_row
        else round)
    else finished p

-- The search for a mandatory IE that was not found: the two loops visit the slots in order.
unfoldable pub find_missing : ℕ → ParseInfo → (ℕ → Bool) → ℕ → Option ℕ
find_missing zero info valid i = none
find_missing (suc k) info valid i =
    let rest = find_missing k info valid (suc i) in
    if (info.ie_presence i == mandatory) && not (valid i) then some i else rest

-- How `nwGtpv2cMsgIeParse` ends: NW_OK; NW_FAILURE with the cause and the offending type and
-- instance; or as the loop does.
pub data Parsed : Type 0 where
  accepted : Msg → Parsed
  rejected : ℕ → ℕ → ℕ → Msg → Parsed
  aborted read_behind_row never_ends : Parsed

abbrev pub found_in : Msg → Progress → Msg
found_in m p = record m { is_ie_valid = p.valid; p_ie = p.ie }

-- The part after the loop.
unfoldable pub conclude : ParseInfo → Msg → Scan → Parsed
unfolding find_missing
conclude info m (finished p) =
    if p.mandatory_found == info.mandatory_ie_count
    then accepted (found_in m p)
    else elim (find_missing 1024 info p.valid 0) [
      | none ↦ rejected mandatory_ie_missing 0 0 (found_in m p)
      | some i ↦ rejected mandatory_ie_missing (i / 4) (i % 4) (found_in m p)
    ]
conclude info m (bad_ie cause type instance_no p) = rejected cause type instance_no (found_in m p)
conclude info m aborts = aborted
conclude info m behind_row = read_behind_row
conclude info m out_of_fuel = never_ends

abbrev pub first_ie : Msg → ℕ
first_ie m = if m.msg_buf 0 / 8 % 2 == 0 then 8 else 12

abbrev pub nothing_found : Msg → Progress
nothing_found m = record { valid = λ _. false; ie = m.p_ie; mandatory_found = 0 }

-- `nwGtpv2cMsgIeParse`. Every round advances by four bytes or more.
unfoldable pub parse : ParseInfo → Msg → Parsed
unfolding scan handle_ie conclude
parse info m =
    conclude info m (scan (suc m.msg_len) info m.msg_buf m.msg_len (first_ie m) (nothing_found m))
