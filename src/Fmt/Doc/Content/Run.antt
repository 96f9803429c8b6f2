-- ===== src/Fmt/Doc/Content/Run.antt =====
-- The printer writes what its documents say, in their order, and besides only blanks.
use astli.Prelude.{
  ℕ, zero, suc, ◌+◌, ◌≤◌, ◌≡◌, ◌∙◌, refl, sym, ap, ap₂, subst, arith, Bool, true, false, List, [],
  ◌∷◌, ◌++◌, Option, none, some, ltb, if◌then◌else◌, ◌>>=◌, length, append_nil, append_assoc,
}
use astli.Fmt.Doc.{Chars, Doc, Anchor, Work, Command, Printer}
use astli.Fmt.Doc.Work.{one, filling}
use astli.Fmt.Doc.Measure.{is_broken}
use astli.Fmt.Doc.Write.{request_space, request_lines, cell, is_lines}
use astli.Fmt.Doc.Run.{Runner, inner, push_docs, fill, step, run}
use astli.Fmt.Doc.Run.Weight.{
  weight_doc, weight_work, weight, IsSound, AllSound, SoundWork, SoundStack,
}
use astli.Fmt.Doc.Run.Total.{
  Runs, push_docs-SoundStack, fill-SoundStack, prefers_total, weight_work_pos, run-total,
}
use astli.Fmt.Doc.Content.{
  solid, content, Agrees, work_content, WorkAgrees, stack_content, StackAgrees,
}
use astli.Fmt.Doc.Content.Write.{Writes, Writes-none, text-Writes}
use astli.Fmt.Doc.Content.Block.{write_verbatim-Writes}
use astli.Fmt.Doc.Content.Stack.{push_docs_content, fill_content}

-- A runner that writes what the stacks up to a weight say.
abbrev Keeps : Runner → ℕ → Type 0
Keeps runner n =
    (p : Printer) (stack : List Command)
    → SoundStack stack
    → StackAgrees stack
    → solid p.layout.newline ≡ []
    → weight stack ≤ n
    → (q : Printer) × (runner p stack 0 ≡ some q) × Writes p q (stack_content stack)

-- A step to a stack up to a weight, which leaves the rest of what there is to say.
record Says (o : Option (Printer × List Command)) (p : Printer) (cs : Chars) (n : ℕ) : Type 0 where
  after : Printer
  stack : List Command
  ran : o ≡ some (after, stack)
  sound : SoundStack stack
  bound : weight stack ≤ n
  agrees : StackAgrees stack
  said : solid after.out ++ stack_content stack ≡ solid p.out ++ cs
  layout : after.layout ≡ p.layout

leaves :
    (p q : Printer) (cs : Chars) (stack : List Command) (n : ℕ)
    → Writes p q cs
    → SoundStack stack
    → StackAgrees stack
    → 1 + weight stack ≤ suc n
    → Says (some (q, stack)) p (cs ++ stack_content stack) n
leaves p q cs stack n w h k bound = record {
  after = q;
  stack = stack;
  ran = refl;
  sound = h;
  bound = omega (arith, bound);
  agrees = k;
  said =
      ap (λ t. t ++ stack_content stack) w.out
      ∙ append_assoc (solid p.out) cs (stack_content stack);
  layout = w.layout;
}

silent :
    (p q : Printer) (stack : List Command) (n : ℕ)
    → q.out ≡ p.out
    → q.layout ≡ p.layout
    → SoundStack stack
    → StackAgrees stack
    → 1 + weight stack ≤ suc n
    → Says (some (q, stack)) p (stack_content stack) n
silent p q stack n e l h k bound = leaves p q [] stack n (Writes-none p q (ap solid e) l) h k bound

pushes :
    (p q : Printer) (c : Command) (d : Doc) (stack : List Command) (n : ℕ)
    → q.out ≡ p.out
    → q.layout ≡ p.layout
    → c.doc ≡ one d
    → IsSound d
    → Agrees d
    → SoundStack stack
    → StackAgrees stack
    → suc (weight_doc d) + weight stack ≤ suc n
    → Says (some (q, c ∷ stack)) p (content d ++ stack_content stack) n
unfolding SoundStack weight StackAgrees stack_content
pushes p q c d stack n o l e h a k b bound = record {
  after = q;
  stack = c ∷ stack;
  ran = refl;
  sound = (subst SoundWork (sym e) h, k);
  bound = omega (arith, bound, ap weight_work e);
  agrees = (subst WorkAgrees (sym e) a, b);
  said = ap₂ (λ x y. solid x ++ (y ++ stack_content stack)) o (ap work_content e);
  layout = l;
}

-- Printers that differ in neither text nor layout.
abbrev Quiet : Printer → Printer → Type 0
Quiet p q = (q.out ≡ p.out) × (q.layout ≡ p.layout)

Quiet-if : (b : Bool) (p q r : Printer) → Quiet p q → Quiet p r → Quiet p (if b then q else r)
Quiet-if true p q r h k = h
Quiet-if false p q r h k = k

space-Quiet : (p : Printer) → Quiet p (request_space p)
unfolding request_space
space-Quiet p = (refl, refl)

lines-Quiet :
    (p : Printer) (count indent : ℕ) (anchor : Option Anchor)
    → Quiet p (request_lines p count indent anchor)
unfolding request_lines
lines-Quiet p count indent anchor = (refl, refl)

cell-Quiet : (p : Printer) (t : Option (ℕ × Bool)) (index : ℕ) → Quiet p (cell p t index)
unfolding cell
cell-Quiet p none index = (refl, refl)
cell-Quiet p (some (t, strict)) index = Quiet-if (is_lines p.gap) p p _ (refl, refl) (refl, refl)

step-Says :
    (runner : Runner) (n : ℕ) (p : Printer) (c : Command) (d : Doc) (stack : List Command)
    → Runs runner n
    → Keeps runner n
    → IsSound d
    → Agrees d
    → SoundStack stack
    → StackAgrees stack
    → solid p.layout.newline ≡ []
    → weight_doc d + weight stack ≤ suc n
    → Says (step runner p c d stack) p (content d ++ stack_content stack) n
unfolding step IsSound weight_doc AllSound Agrees content
step-Says runner n p c (Doc.text t) stack runs keeps h a k b blank bound =
    leaves p _ (solid t) stack n (text-Writes p t blank) k b bound
step-Says runner n p c Doc.space stack runs keeps h a k b blank bound =
    let q = space-Quiet p in silent p _ stack n q.0 q.1 k b bound
step-Says runner n p c Doc.line stack runs keeps h a k b blank bound =
    let q = Quiet-if (is_broken c.mode) p _ _ (lines-Quiet p 1 c.indent c.anchor) (space-Quiet p) in
    silent p _ stack n q.0 q.1 k b bound
step-Says runner n p c Doc.hard_line stack runs keeps h a k b blank bound =
    let q = lines-Quiet p 1 c.indent c.anchor in silent p _ stack n q.0 q.1 k b bound
step-Says runner n p c Doc.soft_line stack runs keeps h a k b blank bound =
    let q = Quiet-if (is_broken c.mode) p _ p (lines-Quiet p 1 c.indent c.anchor) (refl, refl) in
    silent p _ stack n q.0 q.1 k b bound
step-Says runner n p c Doc.blank_line stack runs keeps h a k b blank bound =
    let q = lines-Quiet p 2 c.indent c.anchor in silent p _ stack n q.0 q.1 k b bound
step-Says runner n p c (Doc.cell index) stack runs keeps h a k b blank bound =
    let q = cell-Quiet p c.table index in silent p _ stack n q.0 q.1 k b bound
step-Says runner n p c (Doc.group d) stack runs keeps h a k b blank bound =
    pushes p p _ d stack n refl refl refl h a k b bound
step-Says runner n p c (Doc.indent d) stack runs keeps h a k b blank bound =
    pushes p p _ d stack n refl refl refl h a k b bound
step-Says runner n p c (Doc.margin d) stack runs keeps h a k b blank bound =
    pushes p p _ d stack n refl refl refl h a k b bound
step-Says runner n p c (Doc.align d) stack runs keeps h a k b blank bound =
    pushes p p _ d stack n refl refl refl h a k b bound
step-Says runner n p c (Doc.table d strict) stack runs keeps h a k b blank bound =
    pushes p _ _ d stack n refl refl refl h a k b bound
step-Says runner n p c (Doc.fill ds) stack runs keeps h a k b blank bound =
    let (sound, more) = fill-SoundStack p c ds stack h k in
    let (agree, same) = fill_content p c ds stack a b in
    record {
      after = p;
      stack = fill p c ds stack;
      ran = refl;
      sound = sound;
      bound = omega (arith, more, bound);
      agrees = agree;
      said = ap (λ t. solid p.out ++ t) same;
      layout = refl;
    }
step-Says runner n p c (Doc.concat ds) stack runs keeps h a k b blank bound =
    let (sound, more) = push_docs-SoundStack c ds stack h k in
    let (agree, same) = push_docs_content c ds stack a b in
    record {
      after = p;
      stack = push_docs c ds stack;
      ran = refl;
      sound = sound;
      bound = omega (arith, more, bound);
      agrees = agree;
      said = ap (λ t. solid p.out ++ t) same;
      layout = refl;
    }
step-Says runner n p c (Doc.prefer d e) stack runs keeps h a k b blank bound =
    let trial_bound : weight (inner c d ∷ stack) ≤ n = (unfold weight in omega (arith, bound)) in
    let (first, ran) =
      prefers_total runner n p (inner c d) stack runs (unfold SoundStack in (h.0, k)) trial_bound in
    rw (ran, ◌>>=◌) (chosen first)
  where
    chosen :
        (first : Bool)
        → Says
            (some (p, inner c (if first then d else e) ∷ stack))
            p
            (content d ++ stack_content stack)
            n
    chosen true = pushes p p (inner c d) d stack n refl refl refl h.0 a.1 k b (omega (arith, bound))
    chosen false =
        subst (λ t. Says (some (p, inner c e ∷ stack)) p (t ++ stack_content stack) n) (sym a.0)
          (pushes p p (inner c e) e stack n refl refl refl h.1 a.2 k b (omega (arith, bound)))
step-Says runner n p c (Doc.trailing d) stack runs keeps h a k b blank bound =
    let only : weight (inner c d ∷ []) ≤ n = (unfold weight in omega (arith, bound)) in
    let (q, ran, wrote) =
      keeps p (inner c d ∷ []) (unfold SoundStack in (h, tt)) (unfold StackAgrees in (a, tt)) blank
        only in
    let said : Writes p (record q { cramped = p.cramped }) (content d) =
      (unfold stack_content in
        record {
          out = wrote.out ∙ ap (λ t. solid p.out ++ t) (append_nil (content d));
          layout = wrote.layout;
        }) in
    rw (ran, ◌>>=◌)
      (leaves p (record q { cramped = p.cramped }) (content d) stack n said k b
        (omega (arith, bound)))
step-Says runner n p c (Doc.verbatim v) stack runs keeps h a k b blank bound =
    let (q, ran, wrote) = write_verbatim-Writes p v h blank in
    rw (ran, ◌>>=◌) (leaves p q _ stack n wrote k b bound)

command-Says :
    (runner : Runner) (n : ℕ) (p : Printer) (c : Command) (work : Work) (stack : List Command)
    → Runs runner n
    → Keeps runner n
    → SoundWork work
    → WorkAgrees work
    → SoundStack stack
    → StackAgrees stack
    → solid p.layout.newline ≡ []
    → weight_work work + weight stack ≤ suc n
    → Says
        (elim work as (λ w. Option (Printer × List Command)) [
          | one d ↦ step runner p c d stack
          | filling ds ↦ some (p, fill p c ds stack)
        ])
        p
        (work_content work ++ stack_content stack)
        n
unfolding IsSound weight_doc Agrees content
command-Says runner n p c (one d) stack runs keeps h a k b blank bound =
    step-Says runner n p c d stack runs keeps h a k b blank bound
command-Says runner n p c (filling ds) stack runs keeps h a k b blank bound =
    let (sound, more) = fill-SoundStack p c ds stack h k in
    let (agree, same) = fill_content p c ds stack a b in
    record {
      after = p;
      stack = fill p c ds stack;
      ran = refl;
      sound = sound;
      bound = omega (arith, more, bound);
      agrees = agree;
      said = ap (λ t. solid p.out ++ t) same;
      layout = refl;
    }

some_left : (n : ℕ) → ltb 0 (suc n) ≡ true
some_left n = ground arith

-- On at least as much fuel as its commands weigh, the printer runs a whole stack without a panic, if
-- every verbatim block of it marks lines of its own, the two layouts of every preference say the
-- same, and its newline is blank; what it has written, blanks aside, is what it had written
-- before, and then what the documents say.
pub run-content :
    (fuel : ℕ) (p : Printer) (stack : List Command)
    → SoundStack stack
    → StackAgrees stack
    → solid p.layout.newline ≡ []
    → weight stack ≤ fuel
    → (q : Printer) × (run fuel p stack 0 ≡ some q) × Writes p q (stack_content stack)
unfolding run SoundStack weight StackAgrees stack_content
run-content zero p [] h a blank k = (p, refl, Writes-none p p refl refl)
run-content zero p (c ∷ stack) h a blank k = absurd (omega (arith, k, weight_work_pos c.doc))
run-content (suc fuel) p [] h a blank k = (p, refl, Writes-none p p refl refl)
run-content (suc fuel) p (c ∷ stack) h a blank k =
    let next =
      command-Says (run fuel) fuel p c c.doc stack (λ p s u h k. run-total fuel p s u h k)
        (λ p s h a blank k. run-content fuel p s h a blank k) h.0 a.0 h.1 a.1 blank k in
    let (q, ran, wrote) =
      run-content fuel next.after next.stack next.sound next.agrees
        (ap (λ l. solid l.newline) next.layout ∙ blank) next.bound in
    rw (some_left (length stack), next.ran, ◌>>=◌)
      (q, ran, record { out = wrote.out ∙ next.said; layout = wrote.layout ∙ next.layout })
