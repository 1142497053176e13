-- ===== src/Tasklib/Elements/Call.antt =====
-- The calls that make up a task, and the fields that a mote reads from the attribute of each.
use tenet_t.Prelude.{ℕ, ◌%◌, ◌≡◌, List, [], ◌∷◌, ◌==◌, if◌then◌else◌, u16_mod, u8_mod}
use tenet_t.Transport.Routing.{u16_at}
use tenet_t.Tasklib.Elements.{
  Construct, construct_issue, construct_count, construct_get, construct_actuate, construct_reboot,
  construct_logical, construct_bit, construct_arith, construct_comparison, construct_stats,
  construct_storage, construct_pack, construct_attribute, construct_send,
  construct_delete_attribute_if, construct_delete_active_task_if, construct_delete_task_if,
  construct_voltage, construct_sample, construct_fastsample, construct_user_button,
  construct_memoryop, construct_sample_rssi, construct_firlpfilter,
}
use tenet_t.Tasklib.Elements.Read.{u32_mod, u8_at, u32_at}

pub data Call : Type 0 where
  issue count : ℕ → ℕ → ℕ → Call
  get : ℕ → ℕ → Call
  actuate : ℕ → ℕ → ℕ → Call
  reboot : Call
  logical bit arithmetic comparison : ℕ → ℕ → ℕ → ℕ → ℕ → Call
  stats storage pack attribute : ℕ → ℕ → ℕ → Call
  send : ℕ → Call
  delete_attribute_if : ℕ → ℕ → ℕ → ℕ → Call
  delete_active_task_if delete_task_if : ℕ → ℕ → Call
  voltage : ℕ → Call
  sample : ℕ → ℕ → ℕ → ℕ → ℕ → Call
  fastsample : ℕ → ℕ → ℕ → ℕ × ℕ → ℕ × ℕ → ℕ × ℕ → Call
  user_button : ℕ → Call
  memoryop : ℕ → ℕ → ℕ → ℕ → Call
  sample_rssi : ℕ → Call
  firlpfilter : ℕ → ℕ → Call

abbrev pub construct : Call → Construct
construct (issue starttime period abst) = construct_issue starttime period abst
construct (count tag n rate) = construct_count tag n rate
construct (get tag value) = construct_get tag value
construct (actuate chan argtype arg1) = construct_actuate chan argtype arg1
construct reboot = construct_reboot
construct (logical result tag op argtype arg) = construct_logical result tag op argtype arg
construct (bit result tag op argtype arg) = construct_bit result tag op argtype arg
construct (arithmetic result tag op argtype arg) = construct_arith result tag op argtype arg
construct (comparison result tag op argtype arg) = construct_comparison result tag op argtype arg
construct (stats result tag op) = construct_stats result tag op
construct (storage tag_in tag_out store) = construct_storage tag_in tag_out store
construct (pack tag size block) = construct_pack tag size block
construct (attribute result tag op) = construct_attribute result tag op
construct (send sendtype) = construct_send sendtype
construct (delete_attribute_if arg argtype tag all) =
    construct_delete_attribute_if arg argtype tag all
construct (delete_active_task_if arg argtype) = construct_delete_active_task_if arg argtype
construct (delete_task_if arg argtype) = construct_delete_task_if arg argtype
construct (voltage out0) = construct_voltage out0
construct (sample interval n repeat ch0 out0) = construct_sample interval n repeat ch0 out0
construct (fastsample rate n channels c0 c1 c2) = construct_fastsample rate n channels c0 c1 c2
construct (user_button repeat) = construct_user_button repeat
construct (memoryop addr value op tag) = construct_memoryop addr value op tag
construct (sample_rssi tag) = construct_sample_rssi tag
construct (firlpfilter tag_in tag_out) = construct_firlpfilter tag_in tag_out

-- The type and size of what a send constructs.
abbrev pub send_element : ℕ → List ℕ
send_element sendtype =
    if sendtype == 2
    then 31 ∷ 0 ∷ []
    else if sendtype == 1
    then 4 ∷ 2 ∷ []
    else if sendtype == 3
    then 40 ∷ 2 ∷ []
    else 4 ∷ 2 ∷ []

-- The type of the element and the size of its parameters.
abbrev pub tasklet : Call → List ℕ
tasklet (issue _ _ _) = 5 ∷ 10 ∷ []
tasklet (count _ _ _) = 3 ∷ 6 ∷ []
tasklet (get _ _) = 6 ∷ 4 ∷ []
tasklet (actuate _ _ _) = 7 ∷ 4 ∷ []
tasklet reboot = 2 ∷ 0 ∷ []
tasklet (logical _ _ _ _ _) = 12 ∷ 8 ∷ []
tasklet (bit _ _ _ _ _) = 13 ∷ 8 ∷ []
tasklet (arithmetic _ _ _ _ _) = 11 ∷ 8 ∷ []
tasklet (comparison _ _ _ _ _) = 9 ∷ 8 ∷ []
tasklet (stats _ _ _) = 10 ∷ 6 ∷ []
tasklet (storage _ _ _) = 8 ∷ 6 ∷ []
tasklet (pack _ _ _) = 17 ∷ 6 ∷ []
tasklet (attribute _ _ _) = 18 ∷ 6 ∷ []
tasklet (send sendtype) = send_element sendtype
tasklet (delete_attribute_if _ _ _ _) = 14 ∷ 6 ∷ []
tasklet (delete_active_task_if _ _) = 15 ∷ 4 ∷ []
tasklet (delete_task_if _ _) = 16 ∷ 4 ∷ []
tasklet (voltage _) = 22 ∷ 2 ∷ []
tasklet (sample _ _ _ _ _) = 21 ∷ 10 ∷ []
tasklet (fastsample _ _ _ _ _ _) = 39 ∷ 18 ∷ []
tasklet (user_button _) = 33 ∷ 2 ∷ []
tasklet (memoryop _ _ _ _) = 35 ∷ 6 ∷ []
tasklet (sample_rssi _) = 34 ∷ 2 ∷ []
tasklet (firlpfilter _ _) = 41 ∷ 4 ∷ []

abbrev pub IsByteAt : List ℕ → ℕ → ℕ → Type 0
IsByteAt v i x = u8_at v i ≡ x % u8_mod

abbrev pub IsWordAt : List ℕ → ℕ → ℕ → Type 0
IsWordAt v i x = u16_at v i ≡ x % u16_mod

abbrev pub IsLongAt : List ℕ → ℕ → ℕ → Type 0
IsLongAt v i x = u32_at v i ≡ x % u32_mod

abbrev pub IsOperation : List ℕ → ℕ → ℕ → ℕ → ℕ → ℕ → Type 0
IsOperation v result tag op argtype arg =
    IsWordAt v 0 result
    × (IsWordAt v 2 tag × (IsByteAt v 4 op × (IsByteAt v 5 argtype × IsWordAt v 6 arg)))

-- The fields by their offsets in the struct.
abbrev pub Reads : Call → List ℕ → Type 0
Reads (issue starttime period abst) v =
    IsLongAt v 0 starttime × (IsLongAt v 4 period × IsByteAt v 8 abst)
Reads (count tag n rate) v = IsWordAt v 0 n × (IsWordAt v 2 rate × IsWordAt v 4 tag)
Reads (get tag value) v = IsWordAt v 0 tag × IsWordAt v 2 value
Reads (actuate chan argtype arg1) v = IsByteAt v 0 chan × (IsByteAt v 1 argtype × IsWordAt v 2 arg1)
Reads reboot v = v ≡ []
Reads (logical result tag op argtype arg) v = IsOperation v result tag op argtype arg
Reads (bit result tag op argtype arg) v = IsOperation v result tag op argtype arg
Reads (arithmetic result tag op argtype arg) v = IsOperation v result tag op argtype arg
Reads (comparison result tag op argtype arg) v = IsOperation v result tag op argtype arg
Reads (stats result tag op) v = IsWordAt v 0 result × (IsWordAt v 2 tag × IsWordAt v 4 op)
Reads (storage tag_in tag_out store) v =
    IsWordAt v 0 tag_in × (IsWordAt v 2 tag_out × (IsByteAt v 4 store × IsByteAt v 5 0))
Reads (pack tag size block) v = IsWordAt v 0 tag × (IsWordAt v 2 size × IsByteAt v 4 block)
Reads (attribute result tag op) v = IsWordAt v 0 result × (IsWordAt v 2 tag × IsByteAt v 4 op)
Reads (send sendtype) v =
    if sendtype == 2
    then v ≡ []
    else if sendtype == 1
    then IsByteAt v 0 1
    else if sendtype == 3
    then IsWordAt v 0 0
    else IsByteAt v 0 0
Reads (delete_attribute_if arg argtype tag all) v =
    IsWordAt v 0 arg × (IsWordAt v 2 tag × (IsByteAt v 4 argtype × IsByteAt v 5 all))
Reads (delete_active_task_if arg argtype) v = IsWordAt v 0 arg × IsByteAt v 2 argtype
Reads (delete_task_if arg argtype) v = IsWordAt v 0 arg × IsByteAt v 2 argtype
Reads (voltage out0) v = IsWordAt v 0 out0
Reads (sample interval n repeat ch0 out0) v =
    IsLongAt v 0 interval
    × (IsWordAt v 4 n × (IsWordAt v 6 out0 × (IsByteAt v 8 ch0 × IsByteAt v 9 repeat)))
Reads (fastsample rate n channels c0 c1 c2) v =
    IsLongAt v 0 rate
    × (IsWordAt v 4 n
        × (IsByteAt v 7 channels
            × ((IsByteAt v 9 c0.0 × (IsByteAt v 10 c1.0 × IsByteAt v 11 c2.0))
                × (IsWordAt v 12 c0.1 × (IsWordAt v 14 c1.1 × IsWordAt v 16 c2.1)))))
Reads (user_button repeat) v = IsByteAt v 0 repeat
Reads (memoryop addr value op tag) v =
    IsWordAt v 0 addr × (IsByteAt v 2 value × (IsByteAt v 3 op × IsWordAt v 4 tag))
Reads (sample_rssi tag) v = IsWordAt v 0 tag
Reads (firlpfilter tag_in tag_out) v = IsWordAt v 0 tag_in × IsWordAt v 2 tag_out
