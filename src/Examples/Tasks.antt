-- ===== src/Examples/Tasks.antt =====
-- Tasks and answers of master/tasklib at concrete inputs.
use tenet_t.Prelude.{
  ◌≢◌, ℕ, ◌+◌, ◌%◌, ◌≡◌, refl, ◌≢◌, ◌⊎◌, List, [], ◌∷◌, arith, length, take, replicate, u8_mod,
  Fault, Run, ok, fault, All,
}
use tenet_t.Transport.Routing.{u16_at}
use tenet_t.Tasklib.Response.{Response}
use tenet_t.Tasklib.Reading.{read_response, answered, mote_error, error_attribute}
use tenet_t.Tasklib.Reading.Attrs.{Attr, IsAttr, encode_attrs}
use tenet_t.Tasklib.Reading.Answers.{Holds, report_of, read_response_lem, read_response_cases}
use tenet_t.Tasklib.Elements.{
  Built, task_install, overlay, element, construct_init, construct_finalize, construct_delete,
  construct_send, construct_mda300, construct_mda400, construct_onset_detector,
  construct_fastsample,
}
use tenet_t.Tasklib.Elements.Call.{Call, issue, sample, send}
use tenet_t.Tasklib.Elements.Task.{
  task, build, total, Matches, task_lem, task_overruns, reboot_packet, blink_packet,
  cnt_to_leds_and_rfm_packet, sense_to_rfm_packet,
}

abbrev reading : Attr
reading = record { type = 0x55; value = 1 ∷ 2 ∷ 3 ∷ [] }

abbrev time : Attr
time = record { type = 7; value = 9 ∷ 0 ∷ [] }

read_response_lem_example :
    (r : Response) × ((read_response 5 9 (encode_attrs (reading ∷ time ∷ [])) ≡ ok (answered r))
      × Holds 5 9 (reading ∷ time ∷ []) r)
read_response_lem_example =
    read_response_lem 5 9 reading (time ∷ [])
      ((omega arith, omega arith), ((omega arith, omega arith), tt))
      (λ e. absurd (omega (arith, e)))

-- An attribute of four bytes of which the packet has one.
abbrev cut_off : List ℕ
cut_off = 7 ∷ 0 ∷ 4 ∷ 0 ∷ 1 ∷ []

read_response_cases_example :
    ((u16_at cut_off 0 ≢ error_attribute)
      × ((attrs : List Attr) × ((cut_off ≡ encode_attrs attrs)
            × (All IsAttr attrs
                × ((r : Response) × ((read_response 5 9 cut_off ≡ ok (answered r))
                      × Holds 5 9 attrs r))))))
    ⊎ (((u16_at cut_off 0 ≡ error_attribute)
          × (read_response 5 9 cut_off ≡ ok (mote_error (report_of cut_off))))
        ⊎ (read_response 5 9 cut_off ≡ fault Fault.out_of_bounds))
read_response_cases_example =
    read_response_cases 5 9 cut_off
      (omega arith, (omega arith, (omega arith, (omega arith, (omega arith, tt)))))

abbrev sense : List Call
sense = issue 1000 500 0 ∷ sample 0 1 0 21 0x55 ∷ send 0 ∷ []

task_lem_example :
    (q : Built) × ((task sense (replicate 300 0) ≡ ok q)
      × ((q.len ≡ 2 + total sense)
          × ((attrs : List Attr) × ((take q.len q.buf
                  ≡ task_install ∷ length sense % u8_mod ∷ encode_attrs attrs)
                × Matches sense attrs))))
task_lem_example = task_lem sense (replicate 300 0) (omega arith)

task_overruns_example : task sense (replicate 30 0) ≡ fault Fault.out_of_bounds
task_overruns_example = task_overruns sense (replicate 30 0) (omega arith)

abbrev bytes : Run Built → List ℕ
bytes (ok q) = take q.len q.buf
bytes (fault e) = []

blink_bytes :
    bytes (blink_packet (replicate 40 0xff))
    ≡ 1 ∷ 3 ∷ 5 ∷ 0 ∷ 10 ∷ 0 ∷ 0xe8 ∷ 3 ∷ 0 ∷ 0 ∷ 0xf4 ∷ 1 ∷ 0 ∷ 0 ∷ 0 ∷ 0xff ∷ 3 ∷ 0 ∷ 6 ∷ 0 ∷ 0
      ∷ 0 ∷ 1 ∷ 0 ∷ 0x11 ∷ 1 ∷ 7 ∷ 0 ∷ 4 ∷ 0 ∷ 0 ∷ 1 ∷ 0x11 ∷ 1 ∷ []
unfolding task build element construct_init construct_finalize overlay
blink_bytes = refl

delete_bytes : bytes (construct_delete (replicate 8 0xff)) ≡ 3 ∷ 0 ∷ []
unfolding construct_delete overlay
delete_bytes = refl

mda300_bytes :
    bytes (construct_mda300 1 2 0x303 4 (replicate 16 0xff) 0 0)
    ≡ 42 ∷ 0 ∷ 5 ∷ 0 ∷ 1 ∷ 2 ∷ 3 ∷ 3 ∷ 4 ∷ []
unfolding element overlay
mda300_bytes = refl

mda400_bytes :
    bytes (construct_mda400 20000 0 0x101 0x202 0x303 0x404 4 25 (replicate 24 0xff) 0 0)
    ≡ 37 ∷ 0 ∷ 14 ∷ 0 ∷ 0x20 ∷ 0x4e ∷ 0 ∷ 0 ∷ 1 ∷ 1 ∷ 2 ∷ 2 ∷ 3 ∷ 3 ∷ 4 ∷ 4 ∷ 4 ∷ 25 ∷ []
unfolding element overlay
mda400_bytes = refl

-- The last byte is not assigned.
onset_bytes :
    bytes (construct_onset_detector 2 7 5000 0x303 0x313 0x414 1 (replicate 24 0xff) 0 0)
    ≡ 38 ∷ 0 ∷ 12 ∷ 0 ∷ 2 ∷ 7 ∷ 0x88 ∷ 0x13 ∷ 3 ∷ 3 ∷ 0x13 ∷ 3 ∷ 0x14 ∷ 4 ∷ 1 ∷ 0xff ∷ []
unfolding element overlay
onset_bytes = refl

-- The fields repeat and pad keep what the buffer held.
fastsample_bytes :
    bytes (construct_fastsample 524 10 1 (0, 0x44) (0, 0) (0, 0) (replicate 24 0xff) 0 0)
    ≡ 39 ∷ 0 ∷ 18 ∷ 0 ∷ 12 ∷ 2 ∷ 0 ∷ 0 ∷ 10 ∷ 0 ∷ 0xff ∷ 1 ∷ 0xff ∷ 0 ∷ 0 ∷ 0 ∷ 0x44 ∷ 0 ∷ 0 ∷ 0 ∷ 0
      ∷ 0 ∷ []
unfolding element overlay
fastsample_bytes = refl

test_packets :
    (bytes (cnt_to_leds_and_rfm_packet (replicate 44 0)) ≢ [])
    × ((bytes (sense_to_rfm_packet (replicate 44 0)) ≢ [])
        × (bytes (reboot_packet (replicate 8 0)) ≡ 1 ∷ 1 ∷ 2 ∷ 0 ∷ 0 ∷ 0 ∷ []))
unfolding task build element construct_init construct_finalize overlay construct_send
test_packets = (λ e. absurd (ground arith), (λ e. absurd (ground arith), refl))
