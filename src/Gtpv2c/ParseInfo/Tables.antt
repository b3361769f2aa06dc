-- ===== src/Gtpv2c/ParseInfo/Tables.antt =====
-- The tables of NwGtpv2cMsgIeParseInfo.c: which IEs a message of each type may hold.
use linkerepc.Prelude.{ℕ, List, [], ◌∷◌}

-- NW_GTPV2C_IE_*, the types of IEs
abbrev pub imsi : ℕ
imsi = 1

abbrev pub cause : ℕ
cause = 2

abbrev pub recovery : ℕ
recovery = 3

abbrev pub apn : ℕ
apn = 71

abbrev pub ebi : ℕ
ebi = 73

abbrev pub mei : ℕ
mei = 75

abbrev pub msisdn : ℕ
msisdn = 76

abbrev pub indication : ℕ
indication = 77

abbrev pub pco : ℕ
pco = 78

abbrev pub paa : ℕ
paa = 79

abbrev pub rat_type : ℕ
rat_type = 82

abbrev pub serving_network : ℕ
serving_network = 83

abbrev pub uli : ℕ
uli = 86

abbrev pub fteid : ℕ
fteid = 87

abbrev pub bearer_context : ℕ
bearer_context = 93

abbrev pub pdn_type : ℕ
pdn_type = 99

abbrev pub apn_restriction : ℕ
apn_restriction = 127

abbrev pub selection_mode : ℕ
selection_mode = 128

abbrev pub private_extension : ℕ
private_extension = 255

-- NW_GTPV2C_IE_PRESENCE_*
abbrev pub mandatory : ℕ
mandatory = 1

abbrev pub conditional : ℕ
conditional = 2

abbrev pub optional : ℕ
optional = 4

-- `NwGtpv2cMsgIeInfoT`. `nwGtpv2cMsgIeParseInfoUpdate` ignores the table of a grouped IE, so it is
-- left out.
pub record IeInfo : Type 0 where
  pub ie_type : ℕ
  pub ie_min_length : ℕ
  pub ie_instance : ℕ
  pub ie_presence : ℕ

abbrev pub ie_info : ℕ → ℕ → ℕ → ℕ → IeInfo
ie_info ie_type ie_min_length ie_instance ie_presence = record {
  ie_type = ie_type;
  ie_min_length = ie_min_length;
  ie_instance = ie_instance;
  ie_presence = ie_presence;
}

-- `echoRspIeInfoTbl`
abbrev pub echo_rsp_table : List IeInfo
echo_rsp_table = ie_info recovery 1 0 mandatory ∷ []

-- `createSessionReqIeInfoTbl`
abbrev pub create_session_req_table : List IeInfo
create_session_req_table =
    ie_info imsi 8 0 conditional
    ∷ ie_info msisdn 0 0 conditional
    ∷ ie_info mei 0 0 conditional
    ∷ ie_info fteid 9 0 mandatory
    ∷ ie_info fteid 9 1 conditional
    ∷ ie_info rat_type 1 0 mandatory
    ∷ ie_info apn 0 0 mandatory
    ∷ ie_info apn_restriction 0 0 mandatory
    ∷ ie_info selection_mode 0 0 mandatory
    ∷ ie_info pdn_type 0 0 mandatory
    ∷ ie_info paa 5 0 mandatory
    ∷ ie_info bearer_context 0 0 mandatory
    ∷ ie_info bearer_context 0 1 conditional
    ∷ ie_info serving_network 3 0 mandatory
    ∷ ie_info recovery 0 0 conditional
    ∷ []

-- `modifyBearerReqIeInfoTbl`
abbrev pub modify_bearer_req_table : List IeInfo
modify_bearer_req_table =
    ie_info mei 0 0 conditional
    ∷ ie_info serving_network 3 0 conditional
    ∷ ie_info uli 0 0 conditional
    ∷ ie_info rat_type 1 0 conditional
    ∷ ie_info indication 0 0 conditional
    ∷ ie_info fteid 9 0 conditional
    ∷ ie_info bearer_context 0 0 mandatory
    ∷ ie_info bearer_context 0 1 conditional
    ∷ ie_info private_extension 0 0 optional
    ∷ []

-- `deleteSessionReqIeInfoTbl`
abbrev pub delete_session_req_table : List IeInfo
delete_session_req_table =
    ie_info cause 0 0 conditional
    ∷ ie_info ebi 0 0 conditional
    ∷ ie_info uli 0 0 conditional
    ∷ ie_info indication 0 0 conditional
    ∷ ie_info pco 0 1 conditional
    ∷ ie_info recovery 1 0 conditional
    ∷ ie_info private_extension 0 0 optional
    ∷ []

-- `createSessionRspIeInfoTbl`
abbrev pub create_session_rsp_table : List IeInfo
create_session_rsp_table =
    ie_info cause 0 0 mandatory
    ∷ ie_info paa 5 0 conditional
    ∷ ie_info apn_restriction 0 0 conditional
    ∷ ie_info fteid 9 0 conditional
    ∷ ie_info fteid 9 1 conditional
    ∷ ie_info bearer_context 0 0 mandatory
    ∷ ie_info bearer_context 0 1 conditional
    ∷ ie_info recovery 1 0 conditional
    ∷ ie_info private_extension 0 0 optional
    ∷ []

-- `modifyBearerRspIeInfoTbl`
abbrev pub modify_bearer_rsp_table : List IeInfo
modify_bearer_rsp_table =
    ie_info cause 0 0 mandatory
    ∷ ie_info paa 5 0 conditional
    ∷ ie_info apn_restriction 0 0 conditional
    ∷ ie_info fteid 9 0 conditional
    ∷ ie_info bearer_context 0 0 conditional
    ∷ ie_info recovery 1 0 conditional
    ∷ ie_info private_extension 0 0 optional
    ∷ []

-- `deleteSessionRspIeInfoTbl`
abbrev pub delete_session_rsp_table : List IeInfo
delete_session_rsp_table =
    ie_info cause 0 0 mandatory
    ∷ ie_info recovery 1 0 conditional
    ∷ ie_info pco 0 0 conditional
    ∷ ie_info private_extension 0 0 optional
    ∷ []
