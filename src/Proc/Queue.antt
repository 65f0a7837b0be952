-- ===== src/Proc/Queue.antt =====
-- The two buffers of the scheduler are one queue.
use fusee_os.Base.{
  ℕ, zero, suc, ◌+◌, ◌-◌, ◌^◌, ◌≤◌, ◌<◌, ◌≡◌, refl, sym, ◌∙◌, ap, ap₂, arith, Option, none, u32,
  List, [], ◌∷◌, ◌++◌, length, Bool-cases, ltb, ltb→lt, ltb→le, inl, inr, ◌==◌, ==→eq, ==→ne, ne→==,
  ==_refl,
}
use mathlib.Core.Path.{subst₂}
use mathlib.Core.List.{append_assoc, append-nil}
use native.Mathlib.Nat.{zero-add}
use fusee_os.Proc.{
  Array, push, array_empty, Scheduler, proc_schedule, next_proc, swap_buffers, take_front,
}
use fusee_os.Proc.Arrays.{IsArray, items, items-ext, items-suc, Pushes, push-Pushes}

-- What is left of the front buffer, then the back buffer.
abbrev pub view : Array (Option ℕ) → Array (Option ℕ) → ℕ → List (Option ℕ)
view f b index = items f.elements index (f.size - index) ++ items b.elements 0 b.size

-- The processes to run, in order.
abbrev pub contents : Scheduler → List (Option ℕ)
contents s = view (s.scheduled s.front) (s.scheduled (1 - s.front)) s.index

pub record IsBuffers (front index : ℕ) (f b : Array (Option ℕ)) : Type 0 where
  pub side : front < 2
  pub cursor : index ≤ f.size
  pub front_array : IsArray f
  pub back_array : IsArray b
  pub few_front : f.size < 2 ^ 31
  pub few_back : b.size < 2 ^ 31

abbrev pub IsScheduler : Scheduler → Type 0
IsScheduler s = IsBuffers s.front s.index (s.scheduled s.front) (s.scheduled (1 - s.front))

view-push :
    (p : Option ℕ) (f b b' : Array (Option ℕ)) (index : ℕ)
    → Pushes p b b'
    → view f b' index ≡ view f b index ++ p ∷ []
view-push p f b b' index done =
    let next : b.size + 1 ≡ suc b.size = omega arith in
    let longer : items b'.elements 0 b'.size ≡ items b.elements 0 b.size ++ p ∷ [] = rw done.size (
      ap (items b'.elements 0) next
      ∙ items-suc b'.elements 0 b.size
      ∙ ap₂ (λ xs x. xs ++ x ∷ [])
          (items-ext b.elements b'.elements 0 b.size (λ k h. done.kept k (omega arith)))
          (ap b'.elements (zero-add b.size) ∙ done.last)) in
    ap (◌++◌ (items f.elements index (f.size - index))) longer
    ∙ sym (
        append_assoc (items f.elements index (f.size - index)) (items b.elements 0 b.size) (p ∷ []))

-- `proc_schedule` puts a process at the end of the queue, and keeps the buffers well-formed.
pub proc_schedule-contents :
    (fresh : ℕ → Option ℕ) (p : Option ℕ) (s : Scheduler)
    → IsScheduler s
    → (s.scheduled (1 - s.front)).size + 1 < 2 ^ 31
    → IsScheduler (proc_schedule fresh p s)
      × (contents (proc_schedule fresh p s) ≡ contents s ++ p ∷ [])
unfolding proc_schedule
proc_schedule-contents fresh p s v small =
    let b = s.scheduled (1 - s.front) in
    let b' = push fresh p b in
    let s' = proc_schedule fresh p s in
    let done = push-Pushes fresh p b v.back_array (omega arith) in
    let other = ne→== s.front (1 - s.front) (omega arith) in
    let fe : s'.scheduled s.front ≡ s.scheduled s.front = rw other refl in
    let be : s'.scheduled (1 - s.front) ≡ b' = rw (==_refl (1 - s.front)) refl in
    (
      subst₂ (IsBuffers s.front s.index) (sym fe) (sym be) (record {
        side = v.side;
        cursor = v.cursor;
        front_array = v.front_array;
        back_array = done.array;
        few_front = v.few_front;
        few_back = omega (arith, done.size);
      }),
      ap₂ (λ x y. view x y s.index) fe be ∙ view-push p (s.scheduled s.front) b b' s.index done,
    )

take_front-contents :
    (s : Scheduler)
    → IsScheduler s
    → s.index < (s.scheduled s.front).size
    → let (chosen, s') = take_front s in IsScheduler s' × (contents s ≡ chosen ∷ contents s')
unfolding take_front
take_front-contents s v h =
    let f = s.scheduled s.front in
    let left : f.size - s.index ≡ suc (f.size - (s.index + 1)) = omega arith in
    let next : u32 (s.index + 1) ≡ s.index + 1 = omega (arith, v.few_front) in
    rw next (
      record {
        side = v.side;
        cursor = omega arith;
        front_array = v.front_array;
        back_array = v.back_array;
        few_front = v.few_front;
        few_back = v.few_back;
      },
      ap
          (λ n.
            items f.elements s.index n
            ++ items (s.scheduled (1 - s.front)).elements 0 (s.scheduled (1 - s.front)).size)
          left,
    )

pub length-items : (e : ℕ → Option ℕ) (i n : ℕ) → length (items e i n) ≡ n
length-items e i zero = refl
length-items e i (suc n) = ap suc (length-items e (i + 1) n)

empty_of_length : (xs : List (Option ℕ)) → length xs ≡ 0 → xs ≡ []
empty_of_length [] h = refl
empty_of_length (x ∷ xs) h = absurd (omega arith)

-- The swap of an exhausted front buffer changes nothing in the queue.
swap_buffers-contents :
    (s : Scheduler)
    → IsScheduler s
    → (s.scheduled s.front).size ≤ s.index
    → let s' = swap_buffers s in
      IsScheduler s'
      × (contents s' ≡ contents s)
      × (s'.index ≡ 0)
      × ((s'.scheduled s'.front).size ≡ length (contents s))
unfolding swap_buffers
swap_buffers-contents s v h =
    let f = s.scheduled s.front in
    let b = s.scheduled (1 - s.front) in
    let f' = record f { size = 0 } in
    let s' = swap_buffers s in
    let other = ne→== (1 - s.front) s.front (omega arith) in
    let back : 1 - (1 - s.front) ≡ s.front = omega arith in
    let fe : s'.scheduled (1 - s.front) ≡ b = rw other refl in
    let be : s'.scheduled (1 - (1 - s.front)) ≡ f' = rw (back, ==_refl s.front) refl in
    let spent : f.size - s.index ≡ 0 = omega arith in
    let whole : b.size - 0 ≡ b.size = omega arith in
    let now : contents s ≡ items b.elements 0 b.size =
      ap (λ n. items f.elements s.index n ++ items b.elements 0 b.size) spent in
    (
      subst₂ (IsBuffers (1 - s.front) 0) (sym fe) (sym be) (record {
        side = omega arith;
        cursor = omega arith;
        front_array = v.back_array;
        back_array = record {
          fits = omega arith;
          room = v.front_array.room;
          short = v.front_array.short;
          element = v.front_array.element;
          buffer = v.front_array.buffer;
        };
        few_front = v.few_back;
        few_back = omega arith;
      }),
      ap₂ (λ x y. view x y 0) fe be
          ∙ ap (λ n. items b.elements 0 n ++ []) whole
          ∙ append-nil (items b.elements 0 b.size)
          ∙ sym now,
      refl,
      ap (λ a. a.size) fe ∙ sym (ap length now ∙ length-items b.elements 0 b.size),
    )

-- A queue's head, NULL if it is empty, and what is left.
abbrev pub head : List (Option ℕ) → Option ℕ
head [] = none
head (p ∷ ps) = p

abbrev pub tail : List (Option ℕ) → List (Option ℕ)
tail [] = []
tail (p ∷ ps) = ps

-- With fewer than 2^31 processes in each buffer, `next_proc` takes the first one off the queue,
-- swapping the buffers where it has to, and returns NULL when the queue is empty; the buffers stay
-- well-formed.
pub next_proc-contents :
    (s : Scheduler)
    → IsScheduler s
    → let (chosen, s') = next_proc s in
      IsScheduler s' × (chosen ≡ head (contents s)) × (contents s' ≡ tail (contents s))
unfolding next_proc array_empty
next_proc-contents s v = elim (Bool-cases (ltb s.index (s.scheduled s.front).size)) [
  | inl more ↦
      let (v', e) = take_front-contents s v (ltb→lt _ _ more) in
      rw more (v', sym (ap head e), sym (ap tail e))
  | inr spent ↦
      let (v', same, at_start, count) = swap_buffers-contents s v (ltb→le _ _ spent) in
      let s' = swap_buffers s in
      rw spent (elim (Bool-cases ((s'.scheduled s'.front).size == 0)) [
        | inl idle ↦
            let none_left : contents s ≡ [] =
              empty_of_length (contents s) (sym count ∙ ==→eq _ _ idle) in
            rw idle (v', sym (ap head none_left), same ∙ none_left ∙ sym (ap tail none_left))
        | inr busy ↦
            let ready = ==→ne (s'.scheduled s'.front).size 0 busy in
            let (v'', e) = take_front-contents s' v' (omega arith) in
            rw busy (v'', sym (ap head (sym same ∙ e)), sym (ap tail (sym same ∙ e)))
      ])
]
