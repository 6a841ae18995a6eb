-- ===== src/Server/GroupHandlers.antt =====
-- The handlers that make groups and change their members:
-- zaresd/message_handler/group_change_member_request_handler.cc and
-- zaresd/message_handler/group_create_tmp_group_request_handler.cc.
use zattd.Base.{
  ℕ, ◌≡◌, ◌≢◌, refl, sym, Bool, Bool-cases, inl, inr, List, [], none, some, if◌then◌else◌, ◌==◌,
  arith, false, not, ◌&&◌, is_empty, ℤ, pos, int_eq, signed32,
}
use zattd.Wire.Stream.{ByteStream}
use zattd.Proto.BasePdu.{BaseTeamTalkPdu, set_attach_data, get_attach_data}
use zattd.Proto.BaseData.{GroupInfo, new_group_info}
use zattd.Proto.GroupChangeMemberRequest.{GroupChangeMemberRequest, create, parse_from_byte_stream}
use zattd.Proto.GroupChangeMemberResponse.{GroupChangeMemberResponse}
use zattd.Proto.GroupChangeMemberResponse
use zattd.Proto.GroupCreateTmpGroupRequest.{GroupCreateTmpGroupRequest}
use zattd.Proto.GroupCreateTmpGroupResponse.{GroupCreateTmpGroupResponse}
use zattd.Proto.GroupCreateTmpGroupResponse
use zattd.Model.Group.Database.{UserStatus, Database, elem, set_status}
use zattd.Model.Group.Manager.{get_group_info, join_group, quit_group, create_group}
use zattd.Model.Group.Members.{joined, join_group-status, quit_group-status, quit_group_keeps}

-- SetReserved and SetAttachData of a response. A request that has no attached data gives no pointer to
-- them; the classes of both requests have them.
unfoldable pub answer_base : BaseTeamTalkPdu → BaseTeamTalkPdu → BaseTeamTalkPdu
answer_base request response =
    let reserved = record response { reserved = request.reserved } in
    elim (get_attach_data request) [ some s ↦ set_attach_data reserved s | none ↦ reserved ]

-- Who may take members out: the creator of the group, whose id is not 0.
abbrev pub may_quit : ℕ → GroupInfo → Bool
may_quit request group = request == group.group_creator_id && not (request == 0)

module _ (D : Database) where
  open D use {World, select_status, status_of}

  -- What the handler does to the database: any change type but 0 takes the users out. Each branch asks
  -- for the group.
  unfoldable pub change_members : ℕ → GroupChangeMemberRequest → World → World
  change_members now request w =
      if request.change_type == 0
      then (elim (get_group_info D request.group_id w) [
        | none ↦ w
        | some group ↦ (join_group D now request.user_list request.group_id group w).1
      ])
      else (elim (get_group_info D request.group_id w) [
        | none ↦ w
        | some group ↦
            (quit_group D now request.req_user_id request.user_list request.group_id group w).1
      ])

  unfoldable pub execute_group_change_member :
      ℕ → ℕ → GroupChangeMemberRequest → World → GroupChangeMemberResponse × World
  unfolding answer_base change_members
  execute_group_change_member garbage now request w =
      let made = GroupChangeMemberResponse.create garbage in
      (
        record made {
          base = answer_base request.base made.base;
          req_user_id = request.req_user_id;
          user_list = request.user_list;
          result = 0;
          group_id = request.group_id;
          change_type = if request.change_type == 0 then 0 else 1;
        },
        change_members now request w,
      )

  -- For a GroupChangeMemberRequest that was parsed from any stream into a new object, the change
  -- type of the response depends on what the uninitialised field held, and not on the stream.
  pub change_member-parsed :
      (B : ByteStream) (is : ByteStream.In B) (garbage now : ℕ) (w : World)
      → let request = (parse_from_byte_stream B (create garbage) is).1 in
        (execute_group_change_member garbage now request w).0.change_type
        ≡ (if garbage == 0 then 0 else 1)
  unfolding execute_group_change_member parse_from_byte_stream create
  change_member-parsed B is garbage now w = refl

  found_group : (k : ℕ) (group : GroupInfo) (w : World) → get_group_info D k w ≡ some group → k ≢ 0
  unfolding get_group_info
  found_group k group w h = ground arith

  quit_group-may_quit :
      (now request : ℕ) (ids : List ℕ) (k : ℕ) (group : GroupInfo) (w : World)
      (rows : List UserStatus)
      → is_empty ids ≡ false
      → k ≢ 0
      → k ≡ group.group_id
      → select_status (signed32 k) ids w ≡ some rows
      → (g : ℤ) (u : ℕ)
      → status_of (quit_group D now request ids k group w).1 g (pos u) ≡ (
          if int_eq (signed32 k) g && elem u ids
          then (if may_quit request group
              then set_status 0 (status_of w g (pos u))
              else status_of w g (pos u))
          else status_of w g (pos u))
  quit_group-may_quit now request ids k group w rows ne hk same e g u =
      elim (Bool-cases (may_quit request group)) [
        | inl may ↦ rw may (
            quit_group-status D now request ids k group w rows ne hk (ground (arith, may))
              (ground (arith, may)) same e g (pos u))
        | inr refused ↦
            let kept : (quit_group D now request ids k group w).1 ≡ w =
              quit_group_keeps D now request ids k group w refused in
            rw (refused, kept) (ground arith)
      ]

  -- The handler of a GroupChangeMemberRequest with users, for a group that GetGroupInfo finds
  -- under the id it was asked for, whose query gives an answer: if the change type is 0, each
  -- listed user without a row gets one under its own number if its id is below 2^31, and each with
  -- status 0 gets status 1, whoever asks; otherwise each listed user with a row gets status 0 if
  -- the creator of the group asks, with an id that is not 0, and nothing changes if not. No other
  -- status under a natural number changes.
  pub change_member-status :
      (garbage now : ℕ) (request : GroupChangeMemberRequest) (group : GroupInfo) (w : World)
      (rows : List UserStatus)
      → is_empty request.user_list ≡ false
      → get_group_info D request.group_id w ≡ some group
      → group.group_id ≡ request.group_id
      → select_status (signed32 request.group_id) request.user_list w ≡ some rows
      → (g : ℤ) (u : ℕ)
      → status_of (execute_group_change_member garbage now request w).1 g (pos u) ≡ (
          if int_eq (signed32 request.group_id) g && elem u request.user_list
          then (if request.change_type == 0
              then joined D u (status_of w g (pos u))
              else if may_quit request.req_user_id group
              then set_status 0 (status_of w g (pos u))
              else status_of w g (pos u))
          else status_of w g (pos u))
  unfolding execute_group_change_member change_members
  change_member-status garbage now request group w rows ne found same e g u =
      let known : request.group_id ≢ 0 = found_group request.group_id group w found in
      elim (Bool-cases (request.change_type == 0)) [
        | inl join ↦
            rw (join, found)
              (join_group-status D now request.user_list request.group_id group w rows ne known
                (sym same) e g u)
        | inr quit ↦
            rw (quit, found)
              (quit_group-may_quit now request.req_user_id request.user_list request.group_id group
                w rows ne known (sym same) e g u)
      ]

  unfoldable pub execute_group_create_tmp_group :
      ℕ → ℕ → ℕ → ℕ → ℕ → GroupCreateTmpGroupRequest → World → GroupCreateTmpGroupResponse × World
  unfolding answer_base
  execute_group_create_tmp_group garbage now_1 now_2 now_3 now_4 request w =
      let made = GroupCreateTmpGroupResponse.create garbage in
      let (ok, group, w1) =
        create_group D now_1 now_2 now_3 now_4 request.req_user_id request.group_name 2
          request.group_avatar [] request.user_list new_group_info w in
      (
        record made {
          base = answer_base request.base made.base;
          req_user_id = request.req_user_id;
          result = if ok then 0 else 1;
          group_id = if ok then group.group_id else 0;
        },
        w1,
      )
