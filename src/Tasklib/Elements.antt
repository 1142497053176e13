-- ===== src/Tasklib/Elements.antt =====
-- master/tasklib/element_construct.c: the attributes of a task packet, in bytes, and the test packets of
-- master/tasklib/task_construct.c. A layout follows a packed struct of mote/lib/tenet_task.h; a field that
-- is not assigned keeps what the buffer held. An int of 8 or 16 bits is given by its unsigned value. The
-- constructors for images and of rle, packbits and vector have no model.
pub mod Layout
pub mod Read
pub mod Call
pub mod Fields
pub mod Task
use tenet_t.Prelude.{
  ℕ, zero, suc, ◌+◌, ◌-◌, ◌*◌, ◌/◌, ◌%◌, ◌^◌, ◌≤◌, ◌<◌, min, Ordering, ◌≡◌, refl, sym, ap, ap₂, ◌∙◌,
  ◌≢◌, ◌↔◌, ◌⊎◌, inl, inr, Bool, true, false, not, ◌&&◌, ◌||◌, Option, none, some, List, [], ◌∷◌,
  ◌++◌, map, append-nil, append_assoc, arith, ltb, leb, ◌==◌, if◌then◌else◌, ltb→lt, lt→ltb, leb→le,
  ==_iff, Bool-cases, Option-cases, length, get_elem?, set, length-append, length-set, get_or, take,
  drop, replicate, take-append-drop, length-take, length-drop, length-replicate, length-map,
  take_all, u16_mod, u8_mod, Fault, Run, ok, fault, ◌>>=◌, All, All-append, All-set, All-take,
  All-get_or, All-replicate, All-mono, All-map, take-set_below, take-set_next, get_or-take,
  get_or-set_self, get_or-set_ne, take-set_above, set_outside, take-take, Run-cases,
}
use tenet_t.Trd.Msg.{low, high}

-- The bytes that are assigned.
abbrev pub Layout : Type 0
Layout = List (Option ℕ)

abbrev pub u8 : ℕ → Layout
u8 v = some (low v) ∷ []

abbrev pub u16 : ℕ → Layout
u16 v = some (low v) ∷ some (high v) ∷ []

abbrev pub u32 : ℕ → Layout
u32 v = u16 v ++ u16 (v / u16_mod)

abbrev pub unset : Layout
unset = none ∷ []

unfoldable pub overlay : Layout → List ℕ → List ℕ
overlay [] old = old
overlay (b ∷ layout) [] = []
overlay (some b ∷ layout) (x ∷ old) = b ∷ overlay layout old
overlay (none ∷ layout) (x ∷ old) = x ∷ overlay layout old

-- The bytes up to the last one that is assigned.
abbrev pub extent : Layout → ℕ
extent [] = 0
extent (some b ∷ layout) = suc (extent layout)
extent (none ∷ layout) = let rest = extent layout in if rest == 0 then 0 else suc rest

-- The buffer, *num_elements and the result.
pub record Built : Type 0 where
  pub buf : List ℕ
  pub num_elements : ℕ
  pub len : ℕ

-- A function of buf, len and *num_elements.
abbrev pub Construct : Type 0
Construct = List ℕ → ℕ → ℕ → Run Built

-- What the constructors share: attr_t at buf + len, then the parameters.
unfoldable pub element : ℕ → Layout → Construct
unfolding overlay
element type params buf len num_elements =
    let size = 4 + length params in
    if ltb (length buf) (len + (4 + extent params))
    then fault Fault.out_of_bounds
    else ok (record {
      buf = take len buf ++ overlay (u16 type ++ u16 (length params) ++ params) (drop len buf);
      num_elements = num_elements + 1;
      len = size;
    })

abbrev pub task_install : ℕ
task_install = 1

abbrev pub task_delete : ℕ
task_delete = 3

-- Its callers have *num_elements at zero. numElements is not assigned yet.
unfoldable pub construct_init : List ℕ → Run Built
unfolding overlay
construct_init buf =
    if ltb (length buf) 1
    then fault Fault.out_of_bounds
    else ok (record { buf = overlay (u8 task_install ++ unset) buf; num_elements = 0; len = 2 })

-- Its result, which is added to the length, is zero.
unfoldable pub construct_finalize : Built → Run Built
unfolding overlay
construct_finalize p =
    if ltb (length p.buf) 2
    then fault Fault.out_of_bounds
    else ok (record p { buf = overlay (unset ++ u8 p.num_elements) p.buf })

unfoldable pub construct_delete : List ℕ → Run Built
unfolding overlay
construct_delete buf =
    if ltb (length buf) 2
    then fault Fault.out_of_bounds
    else ok (record { buf = overlay (u8 task_delete ++ u8 0) buf; num_elements = 0; len = 2 })

abbrev pub construct_issue : ℕ → ℕ → ℕ → Construct
construct_issue starttime period abst = element 5 (u32 starttime ++ u32 period ++ u8 abst ++ unset)

abbrev pub construct_count : ℕ → ℕ → ℕ → Construct
construct_count tag count rate = element 3 (u16 count ++ u16 rate ++ u16 tag)

abbrev pub construct_get : ℕ → ℕ → Construct
construct_get tag value = element 6 (u16 tag ++ u16 value)

abbrev pub construct_actuate : ℕ → ℕ → ℕ → Construct
construct_actuate chan argtype arg1 = element 7 (u8 chan ++ u8 argtype ++ u16 arg1)

abbrev pub construct_reboot : Construct
construct_reboot = element 2 []

-- logical_params_t and three others.
abbrev pub operation : ℕ → ℕ → ℕ → ℕ → ℕ → Layout
operation result attr optype argtype arg =
    u16 result ++ u16 attr ++ u8 optype ++ u8 argtype ++ u16 arg

abbrev pub construct_logical : ℕ → ℕ → ℕ → ℕ → ℕ → Construct
construct_logical result tag optype argtype arg1 =
    element 12 (operation result tag optype argtype arg1)

abbrev pub construct_bit : ℕ → ℕ → ℕ → ℕ → ℕ → Construct
construct_bit result tag optype argtype arg1 = element 13 (operation result tag optype argtype arg1)

abbrev pub construct_arith : ℕ → ℕ → ℕ → ℕ → ℕ → Construct
construct_arith result attr optype argtype arg =
    element 11 (operation result attr optype argtype arg)

abbrev pub construct_comparison : ℕ → ℕ → ℕ → ℕ → ℕ → Construct
construct_comparison result attr optype argtype arg =
    element 9 (operation result attr optype argtype arg)

abbrev pub construct_stats : ℕ → ℕ → ℕ → Construct
construct_stats result attr optype = element 10 (u16 result ++ u16 attr ++ u16 optype)

abbrev pub construct_storage : ℕ → ℕ → ℕ → Construct
construct_storage tag_in tag_out store = element 8 (u16 tag_in ++ u16 tag_out ++ u8 store ++ u8 0)

abbrev pub construct_pack : ℕ → ℕ → ℕ → Construct
construct_pack attr size block = element 17 (u16 attr ++ u16 size ++ u8 block ++ unset)

abbrev pub construct_attribute : ℕ → ℕ → ℕ → Construct
construct_attribute result attr optype = element 18 (u16 result ++ u16 attr ++ u8 optype ++ unset)

abbrev pub construct_sendpkt : ℕ → Construct
construct_sendpkt e2e_ack = element 4 (u8 e2e_ack ++ u8 0)

abbrev pub construct_sendstr : Construct
construct_sendstr = element 31 []

abbrev pub construct_sendrcrt : ℕ → Construct
construct_sendrcrt irate = element 40 (u16 irate)

unfoldable pub construct_send : ℕ → Construct
construct_send sendtype =
    if sendtype == 2
    then construct_sendstr
    else if sendtype == 1
    then construct_sendpkt 1
    else if sendtype == 3
    then construct_sendrcrt 0
    else construct_sendpkt 0

abbrev pub construct_delete_attribute_if : ℕ → ℕ → ℕ → ℕ → Construct
construct_delete_attribute_if arg argtype tag delete_all =
    element 14 (u16 arg ++ u16 tag ++ u8 argtype ++ u8 delete_all)

abbrev pub construct_delete_active_task_if : ℕ → ℕ → Construct
construct_delete_active_task_if arg argtype = element 15 (u16 arg ++ u8 argtype ++ u8 0)

abbrev pub construct_delete_task_if : ℕ → ℕ → Construct
construct_delete_task_if arg argtype = element 16 (u16 arg ++ u8 argtype ++ u8 0)

abbrev pub construct_voltage : ℕ → Construct
construct_voltage out0 = element 22 (u16 out0)

abbrev pub construct_sample : ℕ → ℕ → ℕ → ℕ → ℕ → Construct
construct_sample interval count repeat ch0 out0 =
    element 21 (u32 interval ++ u16 count ++ u16 out0 ++ u8 ch0 ++ u8 repeat)

-- A channel with its tag. The fields repeat and pad are not assigned.
abbrev pub construct_fastsample : ℕ → ℕ → ℕ → ℕ × ℕ → ℕ × ℕ → ℕ × ℕ → Construct
construct_fastsample rate count num_channels c0 c1 c2 = element 39 (
    u32 rate
    ++ u16 count
    ++ unset
    ++ u8 num_channels
    ++ unset
    ++ u8 c0.0
    ++ u8 c1.0
    ++ u8 c2.0
    ++ u16 c0.1
    ++ u16 c1.1
    ++ u16 c2.1)

abbrev pub construct_user_button : ℕ → Construct
construct_user_button repeat = element 33 (u8 repeat ++ u8 0)

abbrev pub construct_memoryop : ℕ → ℕ → ℕ → ℕ → Construct
construct_memoryop addr value op type = element 35 (u16 addr ++ u8 value ++ u8 op ++ u16 type)

abbrev pub construct_sample_rssi : ℕ → Construct
construct_sample_rssi tag = element 34 (u16 tag)

abbrev pub construct_firlpfilter : ℕ → ℕ → Construct
construct_firlpfilter tag_in tag_out = element 41 (u16 tag_in ++ u16 tag_out)

abbrev pub construct_mda400 : ℕ → ℕ → ℕ → ℕ → ℕ → ℕ → ℕ → ℕ → Construct
construct_mda400 us_sample_interval num_kilo_samples tag_x tag_y tag_z tag_time select samples =
    element 37 (
      u16 us_sample_interval
      ++ u16 num_kilo_samples
      ++ u16 tag_x
      ++ u16 tag_y
      ++ u16 tag_z
      ++ u16 tag_time
      ++ u8 select
      ++ u8 samples)

abbrev pub construct_mda300 : ℕ → ℕ → ℕ → ℕ → Construct
construct_mda300 channel channel_type out_name param =
    element 42 (u8 channel ++ u8 channel_type ++ u16 out_name ++ u8 param)

abbrev pub construct_onset_detector : ℕ → ℕ → ℕ → ℕ → ℕ → ℕ → ℕ → Construct
construct_onset_detector noise_thresh signal_thresh start_delay tag_in tag_out tag_info
      adaptive_mean =
    element 38 (
      u8 noise_thresh
      ++ u8 signal_thresh
      ++ u16 start_delay
      ++ u16 tag_in
      ++ u16 tag_out
      ++ u16 tag_info
      ++ u8 adaptive_mean
      ++ unset)
