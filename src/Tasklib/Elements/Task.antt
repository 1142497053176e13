-- ===== src/Tasklib/Elements/Task.antt =====
-- Task packets from calls of master/tasklib/element_construct.c, made one after the other as the functions
-- of master/tasklib/task_construct.c make them, and what a mote reads from them.
use tenet_t.Prelude.{
  leb→le, ℕ, zero, suc, ◌+◌, ◌%◌, ◌≤◌, ◌<◌, ◌≡◌, refl, sym, ap, ap₂, ◌∙◌, inl, inr, false, none,
  some, List, [], ◌∷◌, ◌++◌, append-nil, append_assoc, arith, ltb, length, get_or, take, drop,
  u8_mod, Fault, Run, ok, fault, ◌>>=◌,
}
use tenet_t.Tasklib.Reading.Attrs.{Attr, encode_attrs}
use tenet_t.Tasklib.Elements.{
  extent, overlay, Built, Construct, construct_init, construct_finalize, task_install,
}
use tenet_t.Tasklib.Elements.Layout.{length-Fits, element_lem, element_cases}
use tenet_t.Tasklib.Elements.Call.{
  Call, issue, count, actuate, reboot, send, sample, construct, tasklet, Reads,
}
use tenet_t.Tasklib.Elements.Fields.{each_call}

-- `len += construct_...(buf, len, &num_elements, ...)`.
abbrev pub add : Built → Construct → Run Built
add p c = c p.buf p.len p.num_elements >>= λ q. ok (record q { len = p.len + q.len })

unfoldable pub build : List Call → Built → Run Built
build [] p = ok p
build (c ∷ rest) p = add p (construct c) >>= λ q. build rest q

-- The calls between construct_init and construct_finalize.
unfoldable pub task : List Call → List ℕ → Run Built
unfolding build construct_init
task calls buf = construct_init buf >>= λ p. build calls p >>= construct_finalize

abbrev pub blink_packet : List ℕ → Run Built
blink_packet = task (issue 1000 500 0 ∷ count 0x111 0 1 ∷ actuate 0 1 0x111 ∷ [])

abbrev pub cnt_to_leds_and_rfm_packet : List ℕ → Run Built
cnt_to_leds_and_rfm_packet =
    task (issue 1000 500 0 ∷ count 0x44 0 1 ∷ actuate 0 1 0x44 ∷ send 0 ∷ [])

abbrev pub sense_to_rfm_packet : List ℕ → Run Built
sense_to_rfm_packet = task (issue 1000 500 0 ∷ sample 0 1 0 21 0x55 ∷ send 0 ∷ [])

abbrev pub reboot_packet : List ℕ → Run Built
reboot_packet = task (reboot ∷ [])

-- The bytes of the calls' attributes.
abbrev pub total : List Call → ℕ
total [] = 0
total (c ∷ rest) = 4 + get_or (tasklet c) 1 0 + total rest

-- Attributes of the calls' types and sizes, from which their arguments are read.
abbrev pub Matches : List Call → List Attr → Type 0
Matches [] [] = Unit
Matches [] (a ∷ attrs) = ⊥
Matches (c ∷ rest) [] = ⊥
Matches (c ∷ rest) (a ∷ attrs) =
    ((a.type ≡ get_or (tasklet c) 0 0)
      × ((length a.value ≡ get_or (tasklet c) 1 0) × Reads c a.value))
    × Matches rest attrs

encode_attrs-one :
    (a : Attr) (attrs : List Attr)
    → encode_attrs (a ∷ []) ++ encode_attrs attrs ≡ encode_attrs (a ∷ attrs)
encode_attrs-one a attrs = rw (append-nil a.value) refl

build_lem :
    (calls : List Call) (p : Built)
    → p.len + total calls ≤ length p.buf
    → (q : Built) × ((build calls p ≡ ok q)
        × ((q.num_elements ≡ p.num_elements + length calls)
            × ((q.len ≡ p.len + total calls)
                × ((length q.buf ≡ length p.buf)
                    × ((attrs : List Attr) × ((take q.len q.buf
                            ≡ take p.len p.buf ++ encode_attrs attrs)
                          × Matches calls attrs))))))
unfolding build
build_lem [] p room = (
  p,
  (refl, (omega arith, (omega arith, (refl, ([], (sym (append-nil (take p.len p.buf)), tt)))))),
)
build_lem (c ∷ rest) p room =
    let (params, (made, ((size, last), reads))) = each_call c in
    let type = get_or (tasklet c) 0 0 in
    let (q, (done, (n, (len, (same, (w, (bytes, fits))))))) =
      element_lem type params p.buf p.len p.num_elements (omega arith) in
    let p' : Built = record q { len = p.len + q.len } in
    let (r, (all, (n', (len', (same', (attrs, (bytes', every))))))) =
      build_lem rest p' (omega arith) in
    let a : Attr = record { type = type; value = w } in
    let whole : take r.len r.buf ≡ take p.len p.buf ++ encode_attrs (a ∷ attrs) =
      bytes'
      ∙ ap (λ b. b ++ encode_attrs attrs) bytes
      ∙ append_assoc (take p.len p.buf) (encode_attrs (a ∷ [])) (encode_attrs attrs)
      ∙ ap (λ b. take p.len p.buf ++ b) (encode_attrs-one a attrs) in
    (
      r,
      (
        rw (made, done) all,
        (
          omega arith,
          (
            omega arith,
            (
              same' ∙ same,
              (
                a ∷ attrs,
                (whole, ((refl, (length-Fits params w fits ∙ size, reads w fits)), every)),
              ),
            ),
          ),
        ),
      ),
    )

finalize_bytes :
    (n len t b : ℕ) (buf bytes : List ℕ)
    → 2 ≤ len
    → take len buf ≡ t ∷ b ∷ bytes
    → take len (overlay (none ∷ some n ∷ []) buf) ≡ t ∷ n ∷ bytes
unfolding overlay
finalize_bytes n zero t b buf bytes h e = absurd (omega arith)
finalize_bytes n (suc zero) t b buf bytes h e = absurd (omega arith)
finalize_bytes n (suc (suc len)) t b [] bytes h e = absurd (ground arith)
finalize_bytes n (suc (suc len)) t b (x ∷ []) bytes h e = absurd (ground arith)
finalize_bytes n (suc (suc len)) t b (x ∷ y ∷ buf) bytes h e =
    ap₂ (λ z rest. z ∷ n ∷ rest) (ap (λ l. get_or l 0 0) e) (ap (drop 2) e)

-- In a buffer with room for its calls, a task is built: TASK_INSTALL, the number of its elements, and then
-- for each call, in order, an attribute of its type and size from which its arguments are read back, cut
-- to the widths of their fields.
pub task_lem :
    (calls : List Call) (buf : List ℕ)
    → 2 + total calls ≤ length buf
    → (q : Built) × ((task calls buf ≡ ok q)
        × ((q.len ≡ 2 + total calls)
            × ((attrs : List Attr) × ((take q.len q.buf
                    ≡ task_install ∷ length calls % u8_mod ∷ encode_attrs attrs)
                  × Matches calls attrs))))
unfolding task construct_init construct_finalize overlay
task_lem calls [] room = absurd (omega arith)
task_lem calls (x ∷ []) room = absurd (omega arith)
task_lem calls (x ∷ y ∷ buf) room =
    let p : Built = record { buf = task_install ∷ y ∷ buf; num_elements = 0; len = 2 } in
    let fits : ltb (length (x ∷ y ∷ buf)) 1 ≡ false = ground arith in
    let (q, (done, (n, (len, (same, (attrs, (bytes, every))))))) = build_lem calls p room in
    let count : q.num_elements ≡ length calls = omega arith in
    let end =
      finalize_bytes (q.num_elements % u8_mod) q.len task_install y q.buf (encode_attrs attrs)
        (omega arith) bytes in
    let two : ltb (length q.buf) 2 ≡ false = ground arith in
    (
      record q { buf = overlay (none ∷ some (q.num_elements % u8_mod) ∷ []) q.buf },
      (
        rw (fits, done, two) refl,
        (
          len,
          (attrs, (end ∙ ap (λ k. task_install ∷ k % u8_mod ∷ encode_attrs attrs) count, every)),
        ),
      ),
    )

build_overruns :
    (calls : List Call) (p : Built)
    → p.len ≤ length p.buf + 1
    → length p.buf + 1 < p.len + total calls
    → build calls p ≡ fault Fault.out_of_bounds
unfolding build
build_overruns [] p h over = absurd (omega arith)
build_overruns (c ∷ rest) p h over =
    let (params, (made, ((size, last), reads))) = each_call c in
    let type = get_or (tasklet c) 0 0 in
    let most = leb→le (length params) (extent params + 1) last in
    elim (element_cases type params p.buf p.len p.num_elements) [
      | inl short ↦ rw (made, short) refl
      | inr (fits, (q, (done, (len, same)))) ↦
          let p' : Built = record q { len = p.len + q.len } in
          let later : build rest p' ≡ fault Fault.out_of_bounds =
            build_overruns rest p' (omega arith) (omega arith) in
          rw (made, done) later
    ]

-- In a buffer that has two bytes or more less than its calls take, building a task writes behind the
-- buffer. The last byte of a task may be one that no constructor assigns.
pub task_overruns :
    (calls : List Call) (buf : List ℕ)
    → length buf + 1 < 2 + total calls
    → task calls buf ≡ fault Fault.out_of_bounds
unfolding task construct_init overlay
task_overruns calls [] short = refl
task_overruns calls (x ∷ []) short =
    let p : Built = record { buf = task_install ∷ []; num_elements = 0; len = 2 } in
    rw (build_overruns calls p (omega arith) (omega arith)) refl
task_overruns calls (x ∷ y ∷ buf) short =
    let p : Built = record { buf = task_install ∷ y ∷ buf; num_elements = 0; len = 2 } in
    let fits : ltb (length (x ∷ y ∷ buf)) 1 ≡ false = ground arith in
    rw (fits, build_overruns calls p (omega arith) (omega arith)) refl
