-- ===== src/Rpdb/Messages.antt =====
-- What the kernel reads in the messages of rpdb.c.
use aodv_android.Base.{
  ℕ, ◌+◌, ◌%◌, ◌^◌, ◌<◌, ◌≡◌, refl, inl, inr, Bool, true, false, not, ◌&&◌, some, Bool-cases,
  eq_self, List, [], ◌∷◌, if◌then◌else◌, ◌==◌, arith,
}
use aodv_android.Addresses.Text.{byte}
use aodv_android.Rpdb.{
  Attribute, MessageType, rtm_newrule, rtm_delrule, rtm_newroute, rtm_delroute, rta_dst, rta_src,
  rta_iif, rta_oif, rta_gateway, rta_priority, Rtnetlink, rule_attributes, rule_message,
  route_attributes, route_message,
}
use aodv_android.Rpdb.Read.{short_value, word_value, read_attributes, read_rtmsg, read_message}

short_value-byte : (x : ℕ) → x < 2 ^ 16 → short_value (byte 0 x) (byte 1 x) ≡ x
short_value-byte x lt = omega arith

word_value-byte : (x : ℕ) → x < 2 ^ 32 → word_value (byte 0 x) (byte 1 x) (byte 2 x) (byte 3 x) ≡ x
word_value-byte x lt = omega arith

module _ ⦃u : Rtnetlink⦄ where
  type_of_read :
      (m : MessageType)
      → u.type_of (short_value (byte 0 (u.type_code m)) (byte 1 (u.type_code m))) ≡ some m
  type_of_read m =
      let small = u.type_code-lt m in
      rw (short_value-byte (u.type_code m) (omega arith)) (u.type_of-type_code m)

  attribute_of_read :
      (a : Attribute)
      → u.attribute_of (short_value (byte 0 (u.attribute_code a)) (byte 1 (u.attribute_code a)))
        ≡ some a
  attribute_of_read a =
      rw (short_value-byte (u.attribute_code a) (u.attribute_code-lt a))
        (u.attribute_of-attribute_code a)

  -- Where the destination, the next hop, the device and the metric are of 32 bits, the message of
  -- rpdb_route is well formed: the kernel reads in it whether the route is new, the destination with all
  -- 32 bits of its prefix, or none for the null address, the device, the next hop and the metric, with
  -- the scope of a link for the node's own address. Table and ToS are 0, whatever rpdb_route was given.
  pub read_message-route_message :
      (is_new : Bool) (mesh_ip null_ip rt_table tos src_ip dst_ip gw_ip dev_index metric : ℕ)
      → dst_ip < 2 ^ 32
      → gw_ip < 2 ^ 32
      → dev_index < 2 ^ 32
      → metric < 2 ^ 32
      → read_message
          (route_message is_new mesh_ip null_ip rt_table tos src_ip dst_ip gw_ip dev_index metric)
        ≡ some (record {
          type = if is_new then rtm_newroute else rtm_delroute;
          flags = u.nlm_f_request_create;
          family = u.af_inet;
          dst_len = if dst_ip == null_ip then 0 else 32;
          src_len = 0;
          tos = 0;
          table = 0;
          protocol = u.rtprot_static;
          scope = if dst_ip == mesh_ip then u.rt_scope_link else u.rt_scope_universe;
          route_type = u.rtn_unicast;
          attributes =
              (rta_dst, dst_ip)
              ∷ (rta_oif, dev_index)
              ∷ (rta_gateway, gw_ip)
              ∷ (rta_priority, metric)
              ∷ [];
        })
  unfolding read_message read_rtmsg read_attributes route_message route_attributes
  read_message-route_message is_new mesh_ip null_ip rt_table tos src_ip dst_ip gw_ip dev_index
        metric d g i m =
      rw
        (
          short_value-byte u.nlm_f_request_create u.nlm_f_request_create-lt,
          type_of_read (if is_new then rtm_newroute else rtm_delroute),
          attribute_of_read rta_dst,
          attribute_of_read rta_oif,
          attribute_of_read rta_gateway,
          attribute_of_read rta_priority,
          word_value-byte dst_ip d,
          word_value-byte dev_index i,
          word_value-byte gw_ip g,
          word_value-byte metric m,
        )
        refl

  -- The attributes of a rule: its priority is 1000 above its table, and it is for packets from `src_ip`,
  -- or, at the node itself, for all packets that come from the device "lo".
  unfoldable pub asked_attributes :
      (is_new is_own : Bool) (null_ip src_ip table beyond : ℕ) → List (Attribute × ℕ)
  asked_attributes false is_own null_ip src_ip table beyond = (rta_priority, table + 1000) ∷ []
  asked_attributes true true null_ip src_ip table beyond =
      (rta_src, null_ip)
      ∷ (rta_iif, word_value 108 111 0 beyond)
      ∷ (rta_priority, table + 1000)
      ∷ []
  asked_attributes true false null_ip src_ip table beyond =
      (rta_src, src_ip) ∷ (rta_priority, table + 1000) ∷ []

  -- For a rule without a destination, a table of 8 bits and addresses of 32 bits, the message of
  -- rpdb_rule is well formed: the kernel reads in it whether the rule is new, the table, the attributes
  -- that describe the rule, and a prefix of 32 bits for a source that is not the node itself.
  pub read_message-rule_message :
      (is_new : Bool) (mesh_ip null_ip rt_table src_ip beyond : ℕ)
      → rt_table < 2 ^ 8
      → src_ip < 2 ^ 32
      → null_ip < 2 ^ 32
      → read_message (rule_message is_new mesh_ip null_ip rt_table src_ip null_ip beyond)
        ≡ some (record {
          type = if is_new then rtm_newrule else rtm_delrule;
          flags = u.nlm_f_request_create;
          family = u.af_inet;
          dst_len = 0;
          src_len = if is_new && not (src_ip == mesh_ip) then 32 else 0;
          tos = 0;
          table = rt_table;
          protocol = u.rtprot_static;
          scope = u.rt_scope_universe;
          route_type = u.rtn_unicast;
          attributes = asked_attributes is_new (src_ip == mesh_ip) null_ip src_ip rt_table beyond;
        })
  unfolding read_message read_rtmsg read_attributes rule_message rule_attributes asked_attributes
  read_message-rule_message false mesh_ip null_ip rt_table src_ip beyond t s z =
      let table : rt_table % 2 ^ 8 ≡ rt_table = omega arith in
      rw
        (
          eq_self null_ip,
          short_value-byte u.nlm_f_request_create u.nlm_f_request_create-lt,
          type_of_read rtm_delrule,
          attribute_of_read rta_priority,
          table,
          word_value-byte (rt_table + 1000) (omega arith),
        )
        refl
  read_message-rule_message true mesh_ip null_ip rt_table src_ip beyond t s z =
      let table : rt_table % 2 ^ 8 ≡ rt_table = omega arith in
      elim (Bool-cases (src_ip == mesh_ip)) [
        | inl own ↦
            rw
              (
                eq_self null_ip,
                own,
                short_value-byte u.nlm_f_request_create u.nlm_f_request_create-lt,
                type_of_read rtm_newrule,
                attribute_of_read rta_src,
                attribute_of_read rta_iif,
                attribute_of_read rta_priority,
                table,
                word_value-byte (rt_table + 1000) (omega arith),
                word_value-byte null_ip z,
              )
              refl
        | inr other ↦
            rw
              (
                eq_self null_ip,
                other,
                short_value-byte u.nlm_f_request_create u.nlm_f_request_create-lt,
                type_of_read rtm_newrule,
                attribute_of_read rta_src,
                attribute_of_read rta_priority,
                table,
                word_value-byte (rt_table + 1000) (omega arith),
                word_value-byte src_ip s,
              )
              refl
      ]
