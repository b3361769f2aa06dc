-- ===== src/Gtpv2c/ParseInfo/Wellformed.antt =====
-- The objects that `nwGtpv2cMsgIeParseInfoNew` makes of the tables.
use linkerepc.Prelude.{
  ℕ, ◌≡◌, refl, subst, List, Bool, true, false, Option, none, some, ◌==◌, if◌then◌else◌, tally,
}
use linkerepc.Gtpv2c.ParseInfo.{ParseInfo, parse_info_new, parse_info_update, cleared}
use linkerepc.Gtpv2c.ParseInfo.Tables.{
  IeInfo, echo_rsp_table, create_session_req_table, create_session_rsp_table,
  delete_session_req_table, delete_session_rsp_table, modify_bearer_req_table,
  modify_bearer_rsp_table,
}
use linkerepc.Gtpv2c.ParseInfo.Loop.Rounds.{required}

-- The count of the mandatory IEs is the number of slots that are mandatory.
pub record IsCounted (info : ParseInfo) : Type 0 where
  pub count : info.mandatory_ie_count ≡ tally 1024 (required info)

echo_rsp-IsCounted : IsCounted (parse_info_update cleared echo_rsp_table)
unfolding parse_info_update
echo_rsp-IsCounted = record { count = refl }

create_session_req-IsCounted : IsCounted (parse_info_update cleared create_session_req_table)
unfolding parse_info_update
create_session_req-IsCounted = record { count = refl }

create_session_rsp-IsCounted : IsCounted (parse_info_update cleared create_session_rsp_table)
unfolding parse_info_update
create_session_rsp-IsCounted = record { count = refl }

delete_session_req-IsCounted : IsCounted (parse_info_update cleared delete_session_req_table)
unfolding parse_info_update
delete_session_req-IsCounted = record { count = refl }

delete_session_rsp-IsCounted : IsCounted (parse_info_update cleared delete_session_rsp_table)
unfolding parse_info_update
delete_session_rsp-IsCounted = record { count = refl }

modify_bearer_req-IsCounted : IsCounted (parse_info_update cleared modify_bearer_req_table)
unfolding parse_info_update
modify_bearer_req-IsCounted = record { count = refl }

modify_bearer_rsp-IsCounted : IsCounted (parse_info_update cleared modify_bearer_rsp_table)
unfolding parse_info_update
modify_bearer_rsp-IsCounted = record { count = refl }

abbrev Counts : Option ParseInfo → Type 0
Counts none = Unit
Counts (some info) = IsCounted info

choose :
    (c : Bool) (o : Option ParseInfo) (t : List IeInfo)
    → IsCounted (parse_info_update cleared t)
    → Counts o
    → Counts (if c then some (parse_info_update cleared t) else o)
choose true o t h k = h
choose false o t h k = k

parse_info_new-Counts : (msg_type : ℕ) → Counts (parse_info_new msg_type)
unfolding parse_info_new
parse_info_new-Counts msg_type = choose (msg_type == 2) _ echo_rsp_table echo_rsp-IsCounted (
    choose (msg_type == 32) _ create_session_req_table create_session_req-IsCounted (
      choose (msg_type == 33) _ create_session_rsp_table create_session_rsp-IsCounted (
        choose (msg_type == 36) _ delete_session_req_table delete_session_req-IsCounted (
          choose (msg_type == 37) _ delete_session_rsp_table delete_session_rsp-IsCounted (
            choose (msg_type == 34) _ modify_bearer_req_table modify_bearer_req-IsCounted (
              choose (msg_type == 35) _ modify_bearer_rsp_table modify_bearer_rsp-IsCounted tt))))))

-- Every object that is made for a message type counts its mandatory IEs rightly.
pub parse_info_new-IsCounted :
    (msg_type : ℕ) (info : ParseInfo) → parse_info_new msg_type ≡ some info → IsCounted info
parse_info_new-IsCounted msg_type info e = subst Counts e (parse_info_new-Counts msg_type)
