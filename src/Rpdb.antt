-- ===== src/Rpdb.antt =====
-- rpdb.c: the bytes of the messages that ask the kernel for rules and routes, on a little-endian
-- machine. Node has the rest of the two functions: which requests are sent, and their answers.
pub mod Read
pub mod Messages
use aodv_android.Base.{
  ℕ, ◌+◌, ◌%◌, ◌^◌, ◌<◌, ◌≡◌, Bool, true, false, not, ◌||◌, Option, some, List, [], ◌∷◌, ◌++◌,
  if◌then◌else◌, ◌==◌, take,
}
use aodv_android.Params.{default_route_table}
use aodv_android.Addresses.Text.{byte}

-- The attributes and the message types of linux/rtnetlink.h that the module uses.
pub data Attribute : Type 0 where
  rta_dst : Attribute
  rta_src : Attribute
  rta_iif : Attribute
  rta_oif : Attribute
  rta_gateway : Attribute
  rta_priority : Attribute

pub data MessageType : Type 0 where
  rtm_newrule : MessageType
  rtm_delrule : MessageType
  rtm_newroute : MessageType
  rtm_delroute : MessageType

-- The numbers of linux/rtnetlink.h and linux/netlink.h, of which the kernel tells them apart.
pub record Rtnetlink : Type 0 where
  pub attribute_code : Attribute → ℕ
  pub attribute_of : ℕ → Option Attribute
  pub attribute_code-lt : (a : Attribute) → attribute_code a < 2 ^ 16
  pub attribute_of-attribute_code : (a : Attribute) → attribute_of (attribute_code a) ≡ some a
  pub type_code : MessageType → ℕ
  pub type_of : ℕ → Option MessageType
  pub type_code-lt : (m : MessageType) → type_code m < 2 ^ 8
  pub type_of-type_code : (m : MessageType) → type_of (type_code m) ≡ some m
  -- NLM_F_REQUEST | NLM_F_CREATE
  pub nlm_f_request_create : ℕ
  pub nlm_f_request_create-lt : nlm_f_request_create < 2 ^ 16
  pub af_inet : ℕ
  pub rtprot_static : ℕ
  pub rt_scope_universe : ℕ
  pub rt_scope_link : ℕ
  pub rtn_unicast : ℕ

abbrev pub short_bytes : ℕ → List ℕ
short_bytes x = byte 0 x ∷ byte 1 x ∷ []

abbrev pub word_bytes : ℕ → List ℕ
word_bytes x = byte 0 x ∷ byte 1 x ∷ byte 2 x ∷ byte 3 x ∷ []

-- The variables `req`, up to its header, and `rtl`. Behind the attributes `req.buf` is zero.
pub record Request : Type 0 where
  pub dst_len : ℕ
  pub src_len : ℕ
  pub table : ℕ
  pub scope : ℕ
  pub buf : List ℕ
  pub rtl : ℕ

module _ ⦃u : Rtnetlink⦄ where
  -- Behind the last attribute, with `rta_len` and the size of the whole raised by it.
  abbrev pub attribute : Attribute → (value : List ℕ) → Request → Request
  attribute a value r = record r {
    buf = r.buf ++ (short_bytes 8 ++ short_bytes (u.attribute_code a) ++ value);
    rtl = r.rtl + 8;
  }

  -- After memset, with the size of struct rtmsg.
  abbrev pub blank : Request
  blank = record {
    dst_len = 0;
    src_len = 0;
    table = 0;
    scope = u.rt_scope_universe;
    buf = [];
    rtl = 12;
  }

  -- The `nlmsg_len` bytes of `req` that are sent: struct nlmsghdr, struct rtmsg and the attributes.
  abbrev pub sent : MessageType → Request → List ℕ
  sent type r = take (r.rtl + 16) (
      word_bytes (r.rtl + 16)
      ++ short_bytes (u.type_code type)
      ++ short_bytes u.nlm_f_request_create
      ++ word_bytes 0
      ++ word_bytes 0
      ++ (u.af_inet ∷ r.dst_len ∷ r.src_len ∷ 0 ∷ r.table ∷ u.rtprot_static ∷ r.scope
          ∷ u.rtn_unicast ∷ [])
      ++ word_bytes 0
      ++ r.buf)

  -- Four bytes are copied from "lo", which has three: `beyond` is what stands behind it.
  abbrev pub lo_bytes : (beyond : ℕ) → List ℕ
  lo_bytes beyond = 108 ∷ 111 ∷ 0 ∷ beyond ∷ []

  -- A rule from everywhere: for what the node itself sends, or to one destination.
  abbrev pub from_all : (normal : Bool) (null_ip dst_ip beyond : ℕ) → Request → Request
  from_all normal null_ip dst_ip beyond r =
      let all = attribute rta_src (word_bytes null_ip) r in
      if normal
      then attribute rta_iif (lo_bytes beyond) all
      else record (attribute rta_dst (word_bytes dst_ip) all) { dst_len = 32 }

  unfoldable pub rule_attributes :
      (is_new normal : Bool) (mesh_ip null_ip src_ip dst_ip table beyond : ℕ) → Request → Request
  rule_attributes is_new normal mesh_ip null_ip src_ip dst_ip table beyond r =
      attribute rta_priority (word_bytes table) (
        if is_new
        then (if src_ip == mesh_ip || not normal
            then from_all normal null_ip dst_ip beyond r
            else record (attribute rta_src (word_bytes src_ip) r) { src_len = 32 })
        else r)

  -- What rpdb_rule sends: `normal` is that the destination is the null address.
  unfoldable pub rule_message :
      (is_new : Bool) (mesh_ip null_ip rt_table src_ip dst_ip beyond : ℕ) → List ℕ
  unfolding rule_attributes
  rule_message is_new mesh_ip null_ip rt_table src_ip dst_ip beyond =
      let normal = dst_ip == null_ip in
      let table = if normal then rt_table + 1000 else rt_table + 500 in
      let r = rule_attributes is_new normal mesh_ip null_ip src_ip dst_ip table beyond blank in
      sent (if is_new then rtm_newrule else rtm_delrule)
        (record r { table = if normal then rt_table % 2 ^ 8 else default_route_table })

  unfoldable pub route_attributes : (null_ip dst_ip gw_ip dev_index metric : ℕ) → Request → Request
  route_attributes null_ip dst_ip gw_ip dev_index metric r =
      attribute rta_priority (word_bytes metric) (
        attribute rta_gateway (word_bytes gw_ip) (
          attribute rta_oif (word_bytes dev_index)
            (record (attribute rta_dst (word_bytes dst_ip) r) {
              dst_len = if dst_ip == null_ip then 0 else 32;
            })))

  -- What rpdb_route sends; `rt_table`, `tos` and the source are not put into the message.
  unfoldable pub route_message :
      (is_new : Bool) (mesh_ip null_ip rt_table tos src_ip dst_ip gw_ip dev_index metric : ℕ)
      → List ℕ
  unfolding route_attributes
  route_message is_new mesh_ip null_ip rt_table tos src_ip dst_ip gw_ip dev_index metric =
      let r = route_attributes null_ip dst_ip gw_ip dev_index metric blank in
      sent (if is_new then rtm_newroute else rtm_delroute)
        (record r { scope = if dst_ip == mesh_ip then u.rt_scope_link else u.rt_scope_universe })
