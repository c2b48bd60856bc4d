-- ===== src/Tests/Requests.antt =====
-- A rule and a route as messages, with the numbers of Linux.
use aodv_android.Base.{
  ℕ, ◌^◌, ◌<◌, ◌≡◌, refl, true, false, Option, none, some, [], ◌∷◌, if◌then◌else◌, ◌==◌, arith,
}
use aodv_android.Rpdb.{
  Attribute, MessageType, rtm_newrule, rtm_delrule, rtm_newroute, rtm_delroute, rta_dst, rta_src,
  rta_iif, rta_oif, rta_gateway, rta_priority, Rtnetlink, rule_message, rule_attributes,
  route_message,
}
use aodv_android.Rpdb.Read.{read_message}
use aodv_android.Rpdb.Messages.{
  asked_attributes, read_message-route_message, read_message-rule_message,
}

abbrev code : Attribute → ℕ
code rta_dst = 1
code rta_src = 2
code rta_iif = 3
code rta_oif = 4
code rta_gateway = 5
code rta_priority = 6

abbrev attribute_for : ℕ → Option Attribute
attribute_for n =
    if n == 1
    then some rta_dst
    else (if n == 2
        then some rta_src
        else (if n == 3
            then some rta_iif
            else (if n == 4
                then some rta_oif
                else (if n == 5
                    then some rta_gateway
                    else (if n == 6 then some rta_priority else none)))))

code-lt : (a : Attribute) → code a < 2 ^ 16
code-lt rta_dst = omega arith
code-lt rta_src = omega arith
code-lt rta_iif = omega arith
code-lt rta_oif = omega arith
code-lt rta_gateway = omega arith
code-lt rta_priority = omega arith

attribute_for-code : (a : Attribute) → attribute_for (code a) ≡ some a
attribute_for-code rta_dst = refl
attribute_for-code rta_src = refl
attribute_for-code rta_iif = refl
attribute_for-code rta_oif = refl
attribute_for-code rta_gateway = refl
attribute_for-code rta_priority = refl

abbrev number : MessageType → ℕ
number rtm_newroute = 24
number rtm_delroute = 25
number rtm_newrule = 32
number rtm_delrule = 33

abbrev type_for : ℕ → Option MessageType
type_for n =
    if n == 24
    then some rtm_newroute
    else (if n == 25
        then some rtm_delroute
        else (if n == 32 then some rtm_newrule else (if n == 33 then some rtm_delrule else none)))

number-lt : (m : MessageType) → number m < 2 ^ 8
number-lt rtm_newroute = omega arith
number-lt rtm_delroute = omega arith
number-lt rtm_newrule = omega arith
number-lt rtm_delrule = omega arith

type_for-number : (m : MessageType) → type_for (number m) ≡ some m
type_for-number rtm_newroute = refl
type_for-number rtm_delroute = refl
type_for-number rtm_newrule = refl
type_for-number rtm_delrule = refl

instance abbrev linux : Rtnetlink
linux = record {
  attribute_code = code;
  attribute_of = attribute_for;
  attribute_code-lt = code-lt;
  attribute_of-attribute_code = attribute_for-code;
  type_code = number;
  type_of = type_for;
  type_code-lt = number-lt;
  type_of-type_code = type_for-number;
  nlm_f_request_create = 1025;
  nlm_f_request_create-lt = omega arith;
  af_inet = 2;
  rtprot_static = 4;
  rt_scope_universe = 0;
  rt_scope_link = 253;
  rtn_unicast = 1;
}

-- A new route to 10.0.0.9 over 10.0.0.5, four hops.
read_message-route_message_example :
    read_message (route_message true 16777226 0 7 0 16777226 150994954 83886090 3 4)
    ≡ some (record {
      type = rtm_newroute;
      flags = 1025;
      family = 2;
      dst_len = 32;
      src_len = 0;
      tos = 0;
      table = 0;
      protocol = 4;
      scope = 0;
      route_type = 1;
      attributes =
          (rta_dst, 150994954) ∷ (rta_oif, 3) ∷ (rta_gateway, 83886090) ∷ (rta_priority, 4) ∷ [];
    })
read_message-route_message_example =
    read_message-route_message true 16777226 0 7 0 16777226 150994954 83886090 3 4 (omega arith)
      (omega arith) (omega arith) (omega arith)

-- A new rule for what 10.0.0.9 sends, in table 7.
read_message-rule_message_example :
    read_message (rule_message true 16777226 0 7 150994954 0 33)
    ≡ some (record {
      type = rtm_newrule;
      flags = 1025;
      family = 2;
      dst_len = 0;
      src_len = 32;
      tos = 0;
      table = 7;
      protocol = 4;
      scope = 0;
      route_type = 1;
      attributes = (rta_src, 150994954) ∷ (rta_priority, 1007) ∷ [];
    })
unfolding asked_attributes
read_message-rule_message_example =
    read_message-rule_message true 16777226 0 7 150994954 33 (omega arith) (omega arith)
      (omega arith)

-- The bytes of the deletion of that rule.
deletion :
    rule_message false 16777226 0 7 150994954 0 33
    ≡ 36 ∷ 0 ∷ 0 ∷ 0 ∷ 33 ∷ 0 ∷ 1 ∷ 4 ∷ 0 ∷ 0 ∷ 0 ∷ 0 ∷ 0 ∷ 0 ∷ 0 ∷ 0 ∷ 2 ∷ 0 ∷ 0 ∷ 0 ∷ 7 ∷ 4 ∷ 0
      ∷ 1 ∷ 0 ∷ 0 ∷ 0 ∷ 0 ∷ 8 ∷ 0 ∷ 6 ∷ 0 ∷ 239 ∷ 3 ∷ 0 ∷ 0 ∷ []
unfolding rule_message rule_attributes
deletion = refl
