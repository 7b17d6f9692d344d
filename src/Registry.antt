-- ===== src/Registry.antt =====
-- The numbers of src/oep_client/registry.py that the model uses, under the names that message.py
-- gives them.
use oep_client_python.Prelude.{ℕ, List, [], ◌∷◌}

abbrev pub role_request : ℕ
role_request = 0x01

abbrev pub role_result : ℕ
role_result = 0x02

abbrev pub request_header : ℕ
request_header = 10

abbrev pub result_header : ℕ
result_header = 5

abbrev pub no_session_id : ℕ
no_session_id = 0

abbrev pub tlv_header : ℕ
tlv_header = 3

-- resolutions and outcomes
abbrev pub rejected : ℕ
rejected = 0x00

abbrev pub completed : ℕ
completed = 0x01

abbrev pub success : ℕ
success = 0x00

abbrev pub failed : ℕ
failed = 0x01

abbrev pub partial : ℕ
partial = 0x02

-- reject reasons
abbrev pub unknown_function : ℕ
unknown_function = 0x01

abbrev pub unknown_operation : ℕ
unknown_operation = 0x02

abbrev pub malformed : ℕ
malformed = 0x03

abbrev pub unavailable : ℕ
unavailable = 0x04

abbrev pub no_session : ℕ
no_session = 0x07

abbrev pub locked : ℕ
locked = 0x08

abbrev pub no_resource : ℕ
no_resource = 0x0a

abbrev pub session_required : ℕ
session_required = 0x09

abbrev pub unsupported : ℕ
unsupported = 0x0b

abbrev pub result_lost : ℕ
result_lost = 0x0c

-- tags
abbrev pub tag_critical : ℕ
tag_critical = 0x80

abbrev pub tag_named_extension : ℕ
tag_named_extension = 0x7f

abbrev pub tag_fixed : ℕ
tag_fixed = 0x00

-- "OEP?" and "OEP!"
abbrev pub confirm_request : List ℕ
confirm_request = b'O' ∷ b'E' ∷ b'P' ∷ b'?' ∷ []

abbrev pub confirm_result : List ℕ
confirm_result = b'O' ∷ b'E' ∷ b'P' ∷ b'!' ∷ []

-- describe
abbrev pub tag_role_channels : ℕ
tag_role_channels = 0x01

abbrev pub tag_max_clock_hz : ℕ
tag_max_clock_hz = 0x02

abbrev pub tag_max_length : ℕ
tag_max_length = 0x03

abbrev pub tag_min_clock_hz : ℕ
tag_min_clock_hz = 0x04

abbrev pub tag_features : ℕ
tag_features = 0x05

abbrev pub tag_channel_group : ℕ
tag_channel_group = 0x06

abbrev pub tag_ops : ℕ
tag_ops = 0x07

-- operations: fn 0's, and those that every interface with notifications has
abbrev pub core_fn : ℕ
core_fn = 0

abbrev pub op_confirm : ℕ
op_confirm = 0x01

abbrev pub op_list : ℕ
op_list = 0x02

abbrev pub op_describe : ℕ
op_describe = 0x03

abbrev pub op_clock : ℕ
op_clock = 0x04

abbrev pub op_open : ℕ
op_open = 0x10

abbrev pub op_end : ℕ
op_end = 0x11

abbrev pub op_keepalive : ℕ
op_keepalive = 0x12

abbrev pub op_lock_state : ℕ
op_lock_state = 0x13

abbrev pub op_subscribe : ℕ
op_subscribe = 0x01

abbrev pub op_unsubscribe : ℕ
op_unsubscribe = 0x02

abbrev pub op_restart : ℕ
op_restart = 0x10

-- tags of answers and of open
abbrev pub tag_owner : ℕ
tag_owner = 0x01

abbrev pub tag_transport : ℕ
tag_transport = 0x01

abbrev pub tag_supported : ℕ
tag_supported = 0x01

abbrev pub tag_max_op_ms : ℕ
tag_max_op_ms = 0x4d

abbrev pub tag_restart_max_ms : ℕ
tag_restart_max_ms = 0x40

-- limits
abbrev pub min_max_frame : ℕ
min_max_frame = 0x40

abbrev pub max_op_ms_max : ℕ
max_op_ms_max = 600000

abbrev pub core_quick_op_max_ms : ℕ
core_quick_op_max_ms = 1000

abbrev pub lease_min_ms : ℕ
lease_min_ms = 1000

abbrev pub owner_max_bytes : ℕ
owner_max_bytes = 32
