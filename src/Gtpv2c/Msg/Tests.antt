-- ===== src/Gtpv2c/Msg/Tests.antt =====
-- Messages of NwGtpv2cMsg.c: an echo response, a cause, a fully qualified TEID and a bearer context.
use linkerepc.Prelude.{
  ℕ, ◌-◌, ◌*◌, ◌<◌, ◌≡◌, refl, arith, false, none, some, ◌==◌, if◌then◌else◌, htons,
}
use linkerepc.Bytes.{load16, store16}
use linkerepc.Gtpv2c.Msg.{Msg, receive, write_header}
use linkerepc.Gtpv2c.Msg.Encode.{
  add_ie, add_ie_tv1, add_ie_tv2, add_ie_tv4, add_ie_cause, add_ie_fteid, grouped_ie_start,
  grouped_ie_end,
}
use linkerepc.Gtpv2c.Msg.Decode.{
  found, get_ie_tv1, get_ie_tv2, get_ie_tv4, get_ie_cause, get_ie_fteid,
}
use linkerepc.Gtpv2c.Msg.Decode.RoundTrip.{
  tv_round_trips, get_ie_cause-add_ie_cause, get_ie_fteid-add_ie_fteid,
}
use linkerepc.Gtpv2c.Msg.Header.{receive-write_header}
use linkerepc.Gtpv2c.Msg.Grouped.{empty, adds, Kept, grouped_ie_end-length}
use linkerepc.Gtpv2c.ParseInfo.{ParseInfo, parse_info_new, parse_info_update, cleared, parse}
use linkerepc.Gtpv2c.ParseInfo.Tables.{echo_rsp_table}
use linkerepc.Gtpv2c.ParseInfo.Wellformed.{parse_info_new-IsCounted}
use linkerepc.Gtpv2c.ParseInfo.Accept.{Verdict, parse-Verdict}

abbrev blank : Msg
blank = record {
  version = 2;
  teid_present = 0;
  msg_type = 2;
  msg_len = 8;
  teid = 0;
  seq_num = 5;
  open_ie = λ _. 0;
  top = 0;
  is_ie_valid = λ _. false;
  p_ie = λ _. 0;
  msg_buf = λ _. 0;
}

-- A message with the bytes of `m` in which IE `type`, instance 0, was found at offset 8.
abbrev received : Msg → ℕ → Msg
received m type = record m { is_ie_valid = λ i. i == type * 4; p_ie = λ i. 8 }

tv_round_trips_example :
    (get_ie_tv1 (received (add_ie_tv1 blank 3 0 77) 3) 3 0 ≡ found 77)
    × (get_ie_tv2 (received (add_ie_tv2 blank 3 0 777) 3) 3 0 ≡ found 777)
    × (get_ie_tv4 (received (add_ie_tv4 blank 3 0 77777) 3) 3 0 ≡ found 77777)
tv_round_trips_example =
    tv_round_trips blank (received (add_ie_tv1 blank 3 0 77) 3)
      (received (add_ie_tv2 blank 3 0 777) 3) (received (add_ie_tv4 blank 3 0 77777) 3) 3 0 77 777
      77777 (omega arith) (omega arith)
      (record { same = λ k. refl; valid = refl; at = refl; low = omega arith })
      (record { same = λ k. refl; valid = refl; at = refl; low = omega arith })
      (record { same = λ k. refl; valid = refl; at = refl; low = omega arith })

get_ie_cause-add_ie_cause_example :
    get_ie_cause (received (add_ie_cause blank 0 69 1 87 0 (λ _. 0)) 2) 0 ≡ found (69, 1, none)
get_ie_cause-add_ie_cause_example =
    get_ie_cause-add_ie_cause blank (received (add_ie_cause blank 0 69 1 87 0 (λ _. 0)) 2) 0 69 1 87
      0 (λ _. 0) (record { same = λ k. refl; valid = refl; at = refl; low = omega arith })

get_ie_fteid-add_ie_fteid_example :
    get_ie_fteid (received (add_ie_fteid blank 0 10 4660 167772161 none (λ _. 0)) 87) 0
    ≡ found (10, 4660, some 167772161)
get_ie_fteid-add_ie_fteid_example =
    get_ie_fteid-add_ie_fteid blank
      (received (add_ie_fteid blank 0 10 4660 167772161 none (λ _. 0)) 87) 0 10 4660 167772161
      (λ _. 0) (omega arith) (omega arith) (omega arith)
      (record { same = λ k. refl; valid = refl; at = refl; low = omega arith })

receive-write_header_example :
    let got = receive blank (write_header blank 4660).msg_buf 8 in
    (got.version ≡ 2)
    × (got.teid_present ≡ 0)
    × (got.msg_type ≡ 2)
    × (got.teid ≡ 0)
    × (got.seq_num ≡ 83890740)
receive-write_header_example =
    receive-write_header blank blank 4660 8 (omega arith) (omega arith) (omega arith) (omega arith)

abbrev context : Msg
context = record blank {
  msg_buf = λ k.
      if 11 == k then 0 else if 10 == k then 0 else if 9 == k then 12 else if 8 == k then 93 else 0;
  msg_len = 12;
  open_ie = λ k. if 0 == k then 8 else 0;
  top = 1;
}

opens : grouped_ie_start blank 93 0 ≡ some context
unfolding grouped_ie_start store16
opens = refl

grouped_ie_end-length_example :
    (q : Msg) × (grouped_ie_end (add_ie context 73 1 0 (λ _. 5)) ≡ some q)
    × (htons (load16 q.msg_buf 9) ≡ (add_ie context 73 1 0 (λ _. 5)).msg_len - 12)
    × (q.msg_buf 8 ≡ 93)
    × (q.msg_buf 11 ≡ 0)
    × (q.msg_len ≡ (add_ie context 73 1 0 (λ _. 5)).msg_len)
    × Kept blank q
grouped_ie_end-length_example =
    grouped_ie_end-length blank context (add_ie context 73 1 0 (λ _. 5)) 93 0 (omega arith) opens
      (adds 73 1 0 (λ _. 5) (omega arith) empty)

abbrev echo_info : ParseInfo
unfolding parse_info_update
echo_info = parse_info_update cleared echo_rsp_table

makes_info : parse_info_new 2 ≡ some echo_info
unfolding parse_info_new echo_info
makes_info = refl

-- A recovery IE of one byte.
abbrev echo : Msg
echo = record blank {
  msg_buf = λ k. if k == 0 then 64 else if k == 8 then 3 else if k == 10 then 1 else 0;
  msg_len = 13;
}

echo-bytes : (k : ℕ) → echo.msg_buf k < 256
echo-bytes k = ground arith

parse-Verdict_example : Verdict echo_info echo (parse echo_info echo)
parse-Verdict_example =
    parse-Verdict echo_info echo (parse_info_new-IsCounted 2 echo_info makes_info) echo-bytes
