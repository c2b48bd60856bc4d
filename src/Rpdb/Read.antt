-- ===== src/Rpdb/Read.antt =====
-- How the kernel reads a message of rtnetlink, by the layout of linux/netlink.h and
-- linux/rtnetlink.h: the description that the messages of rpdb.c are held against. The module asks
-- with attributes of four bytes only.
use aodv_android.Base.{
  ℕ, ◌+◌, ◌*◌, ◌^◌, Option, none, some, List, [], ◌∷◌, length, if◌then◌else◌, ◌==◌,
}
use aodv_android.Rpdb.{Attribute, MessageType, Rtnetlink}

abbrev pub short_value : (b0 b1 : ℕ) → ℕ
short_value b0 b1 = b0 + 2 ^ 8 * b1

abbrev pub word_value : (b0 b1 b2 b3 : ℕ) → ℕ
word_value b0 b1 b2 b3 = b0 + 2 ^ 8 * b1 + 2 ^ 16 * b2 + 2 ^ 24 * b3

pub record Reading : Type 0 where
  pub type : MessageType
  pub flags : ℕ
  pub family : ℕ
  pub dst_len : ℕ
  pub src_len : ℕ
  pub tos : ℕ
  pub table : ℕ
  pub protocol : ℕ
  pub scope : ℕ
  pub route_type : ℕ
  pub attributes : List (Attribute × ℕ)

abbrev pub add_attribute :
    Option Attribute → ℕ → Option (List (Attribute × ℕ)) → Option (List (Attribute × ℕ))
add_attribute none value more = none
add_attribute (some a) value none = none
add_attribute (some a) value (some as_read) = some ((a, value) ∷ as_read)

abbrev pub reading :
    Option MessageType
    → (flags family dst_len src_len tos table protocol scope route_type : ℕ)
    → Option (List (Attribute × ℕ))
    → Option Reading
reading none flags family dst_len src_len tos table protocol scope route_type attributes = none
reading (some type) flags family dst_len src_len tos table protocol scope route_type none = none
reading (some type) flags family dst_len src_len tos table protocol scope route_type
      (some attributes) =
    some (record {
      type = type;
      flags = flags;
      family = family;
      dst_len = dst_len;
      src_len = src_len;
      tos = tos;
      table = table;
      protocol = protocol;
      scope = scope;
      route_type = route_type;
      attributes = attributes;
    })

module _ ⦃u : Rtnetlink⦄ where
  -- An attribute of another length than eight, or an unknown one, is not read.
  unfoldable pub read_attributes : List ℕ → Option (List (Attribute × ℕ))
  read_attributes [] = some []
  read_attributes (l0 ∷ l1 ∷ a0 ∷ a1 ∷ b0 ∷ b1 ∷ b2 ∷ b3 ∷ rest) =
      let more = read_attributes rest in
      if short_value l0 l1 == 8
      then add_attribute (u.attribute_of (short_value a0 a1)) (word_value b0 b1 b2 b3) more
      else none
  read_attributes other = none

  -- struct rtmsg: the family, the lengths, the ToS, the table, the protocol, the scope, the type and
  -- the flags.
  unfoldable pub read_rtmsg : Option MessageType → (flags : ℕ) → List ℕ → Option Reading
  unfolding read_attributes
  read_rtmsg type flags
        (family ∷ dst_len ∷ src_len ∷ tos ∷ table ∷ protocol ∷ scope ∷ route_type ∷ f0 ∷ f1 ∷ f2
          ∷ f3 ∷ rest) =
      reading type flags family dst_len src_len tos table protocol scope route_type
        (read_attributes rest)
  read_rtmsg type flags other = none

  -- struct nlmsghdr: the length of the whole, the type, the flags, the sequence number and the port.
  unfoldable pub read_message : List ℕ → Option Reading
  unfolding read_rtmsg
  read_message
        (l0 ∷ l1 ∷ l2 ∷ l3 ∷ t0 ∷ t1 ∷ f0 ∷ f1 ∷ s0 ∷ s1 ∷ s2 ∷ s3 ∷ p0 ∷ p1 ∷ p2 ∷ p3 ∷ rest) =
      if word_value l0 l1 l2 l3 == 16 + length rest
      then read_rtmsg (u.type_of (short_value t0 t1)) (short_value f0 f1) rest
      else none
  read_message other = none
