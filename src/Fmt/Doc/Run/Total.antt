-- ===== src/Fmt/Doc/Run/Total.antt =====
-- The printer ends: as much fuel as the commands weigh is enough, and nothing panics.
use astli.Prelude.{
  ℕ, zero, suc, ◌+◌, ◌≤◌, ◌<◌, ◌≡◌, refl, ap, sym, subst, arith, Bool, true, false, not, ◌&&◌, List,
  [], ◌∷◌, Option, none, some, ltb, if◌then◌else◌, ◌>>=◌, length, Bool-cases, inl, inr,
}
use astli.Fmt.Doc.{Doc, Docs, Mode, Work, Command, Printer}
use astli.Fmt.Doc.Docs.{no_docs, docs}
use astli.Fmt.Doc.Mode.{flat, broken}
use astli.Fmt.Doc.Work.{one, filling}
use astli.Fmt.Doc.Measure.{fits}
use astli.Fmt.Doc.Block.Total.{write_verbatim_total}
use astli.Fmt.Doc.Run.{
  Runner, new, inner, push_docs, fill_broken, fill, trial_column, fits_printed, prefers, step, run,
}
use astli.Fmt.Doc.Run.Weight.{
  weight_doc, weight_docs, weight_work, weight, IsSound, AllSound, SoundWork, SoundStack,
}

-- A runner that succeeds on stacks up to a weight.
abbrev pub Runs : Runner → ℕ → Type 0
Runs runner n =
    (p : Printer) (stack : List Command) (until : ℕ)
    → SoundStack stack
    → weight stack ≤ n
    → (q : Printer) × (runner p stack until ≡ some q)

-- A step to a stack up to a weight.
abbrev Goes : Option (Printer × List Command) → ℕ → Type 0
Goes o n =
    (q : Printer) × (stack : List Command) × (o ≡ some (q, stack))
    × SoundStack stack
    × (weight stack ≤ n)

pub push_docs-SoundStack :
    (c : Command) (ds : Docs) (stack : List Command)
    → AllSound ds
    → SoundStack stack
    → SoundStack (push_docs c ds stack)
      × (weight (push_docs c ds stack) ≤ weight_docs ds + weight stack)
unfolding SoundStack weight AllSound weight_docs
push_docs-SoundStack c no_docs stack h k = (k, omega arith)
push_docs-SoundStack c (docs d ds) stack h k =
    let (sound, bound) = push_docs-SoundStack c ds stack h.1 k in
    ((h.0, sound), omega (arith, bound))

fill_broken-SoundStack :
    (p : Printer) (c : Command) (ds : Docs) (stack : List Command)
    → AllSound ds
    → SoundStack stack
    → SoundStack (fill_broken p c ds stack)
      × (weight (fill_broken p c ds stack) ≤ weight_docs ds + weight stack)
unfolding SoundStack weight AllSound weight_docs fill_broken
fill_broken-SoundStack p c no_docs stack h k = (k, omega arith)
fill_broken-SoundStack p c (docs d no_docs) stack h k = ((h.0, k), omega arith)
fill_broken-SoundStack p c (docs d (docs s no_docs)) stack h k = ((h.0, (h.1.0, k)), omega arith)
fill_broken-SoundStack p c (docs d (docs s (docs e more))) stack h k =
    ((h.0, (h.1.0, (h.1.1, k))), omega arith)

pub fill-SoundStack :
    (p : Printer) (c : Command) (ds : Docs) (stack : List Command)
    → AllSound ds
    → SoundStack stack
    → SoundStack (fill p c ds stack) × (weight (fill p c ds stack) ≤ weight_docs ds + weight stack)
unfolding fill
fill-SoundStack p c ds stack h k = by_mode c.mode
  where
    by_mode :
        (m : Mode)
        → SoundStack (elim m as (λ m. List Command) [
          | flat ↦ push_docs c ds stack
          | broken ↦ fill_broken p c ds stack
        ])
          × (weight (elim m as (λ m. List Command) [
            | flat ↦ push_docs c ds stack
            | broken ↦ fill_broken p c ds stack
          ])
              ≤ weight_docs ds + weight stack)
    by_mode flat = push_docs-SoundStack c ds stack h k
    by_mode broken = fill_broken-SoundStack p c ds stack h k

pub prefers_total :
    (runner : Runner) (n : ℕ) (p : Printer) (c : Command) (rest : List Command)
    → Runs runner n
    → SoundStack (c ∷ rest)
    → weight (c ∷ rest) ≤ n
    → (b : Bool) × (prefers runner p c rest ≡ some b)
unfolding fits_printed
prefers_total runner n p c rest runs h k = by_mode c.mode
  where
    by_trial :
        (t : Bool)
        → (b : Bool) × ((if t then some false else (do
          printed ←
              runner
                (record (new p.layout (trial_column p)) { indent = p.indent; trial = true })
                (c ∷ rest)
                (length rest)
          some (not printed.cramped && fits printed no_docs rest)))
            ≡ some b)
    by_trial true = (false, refl)
    by_trial false =
        let (q, e) =
          runs (record (new p.layout (trial_column p)) { indent = p.indent; trial = true })
            (c ∷ rest) (length rest) h k in
        (not q.cramped && fits q no_docs rest, rw (e, ◌>>=◌) refl)

    by_mode :
        (m : Mode)
        → (b : Bool) × (elim m as (λ m. Option Bool) [
          | flat ↦ some true
          | broken ↦ fits_printed runner p c rest
        ]
            ≡ some b)
    by_mode flat = (true, refl)
    by_mode broken = by_trial p.trial

-- A step that leaves the stack, and one that pushes a command.
leaves :
    (q : Printer) (stack : List Command) (n : ℕ)
    → SoundStack stack
    → 1 + weight stack ≤ suc n
    → Goes (some (q, stack)) n
leaves q stack n h k = (q, stack, refl, h, omega (arith, k))

pushes :
    (q : Printer) (c : Command) (d : Doc) (stack : List Command) (n : ℕ)
    → c.doc ≡ one d
    → IsSound d
    → SoundStack stack
    → suc (weight_doc d) + weight stack ≤ suc n
    → Goes (some (q, c ∷ stack)) n
unfolding SoundStack weight
pushes q c d stack n e h k bound =
    (q, c ∷ stack, refl, (subst SoundWork (sym e) h, k), omega (arith, bound, ap weight_work e))

step-Goes :
    (runner : Runner) (n : ℕ) (p : Printer) (c : Command) (d : Doc) (stack : List Command)
    → Runs runner n
    → IsSound d
    → SoundStack stack
    → weight_doc d + weight stack ≤ suc n
    → Goes (step runner p c d stack) n
unfolding step IsSound weight_doc AllSound
step-Goes runner n p c (Doc.text t) stack runs h k bound = leaves _ stack n k bound
step-Goes runner n p c Doc.space stack runs h k bound = leaves _ stack n k bound
step-Goes runner n p c Doc.line stack runs h k bound = leaves _ stack n k bound
step-Goes runner n p c Doc.hard_line stack runs h k bound = leaves _ stack n k bound
step-Goes runner n p c Doc.soft_line stack runs h k bound = leaves _ stack n k bound
step-Goes runner n p c Doc.blank_line stack runs h k bound = leaves _ stack n k bound
step-Goes runner n p c (Doc.cell index) stack runs h k bound = leaves _ stack n k bound
step-Goes runner n p c (Doc.group d) stack runs h k bound = pushes p _ d stack n refl h k bound
step-Goes runner n p c (Doc.indent d) stack runs h k bound = pushes p _ d stack n refl h k bound
step-Goes runner n p c (Doc.margin d) stack runs h k bound = pushes p _ d stack n refl h k bound
step-Goes runner n p c (Doc.align d) stack runs h k bound = pushes p _ d stack n refl h k bound
step-Goes runner n p c (Doc.table d strict) stack runs h k bound =
    pushes _ _ d stack n refl h k bound
step-Goes runner n p c (Doc.fill ds) stack runs h k bound =
    let (sound, more) = fill-SoundStack p c ds stack h k in
    (p, fill p c ds stack, refl, sound, omega (arith, more, bound))
step-Goes runner n p c (Doc.concat ds) stack runs h k bound =
    let (sound, more) = push_docs-SoundStack c ds stack h k in
    (p, push_docs c ds stack, refl, sound, omega (arith, more, bound))
step-Goes runner n p c (Doc.prefer d e) stack runs h k bound =
    let trial_bound : weight (inner c d ∷ stack) ≤ n = (unfold weight in omega (arith, bound)) in
    let (b, ran) =
      prefers_total runner n p (inner c d) stack runs (unfold SoundStack in (h.0, k)) trial_bound in
    rw (ran, ◌>>=◌) (chosen b)
  where
    chosen : (b : Bool) → Goes (some (p, inner c (if b then d else e) ∷ stack)) n
    chosen true = pushes p (inner c d) d stack n refl h.0 k (omega (arith, bound))
    chosen false = pushes p (inner c e) e stack n refl h.1 k (omega (arith, bound))
step-Goes runner n p c (Doc.trailing d) stack runs h k bound =
    let only : weight (inner c d ∷ []) ≤ n = (unfold weight in omega (arith, bound)) in
    let (q, ran) = runs p (inner c d ∷ []) 0 (unfold SoundStack in (h, tt)) only in
    rw (ran, ◌>>=◌) (record q { cramped = p.cramped }, stack, refl, k, omega (arith, bound))
step-Goes runner n p c (Doc.verbatim v) stack runs h k bound =
    let (q, ran) = write_verbatim_total p v h in rw (ran, ◌>>=◌) (leaves q stack n k bound)

command-Goes :
    (runner : Runner) (n : ℕ) (p : Printer) (c : Command) (work : Work) (stack : List Command)
    → Runs runner n
    → SoundWork work
    → SoundStack stack
    → weight_work work + weight stack ≤ suc n
    → Goes
        (elim work as (λ w. Option (Printer × List Command)) [
          | one d ↦ step runner p c d stack
          | filling ds ↦ some (p, fill p c ds stack)
        ])
        n
unfolding IsSound weight_doc
command-Goes runner n p c (one d) stack runs h k bound =
    step-Goes runner n p c d stack runs h k bound
command-Goes runner n p c (filling ds) stack runs h k bound =
    let (sound, more) = fill-SoundStack p c ds stack h k in
    (p, fill p c ds stack, refl, sound, omega (arith, more, bound))

pub weight_work_pos : (w : Work) → 0 < weight_work w
unfolding weight_doc
weight_work_pos (one (Doc.text t)) = omega arith
weight_work_pos (one Doc.space) = omega arith
weight_work_pos (one Doc.line) = omega arith
weight_work_pos (one Doc.soft_line) = omega arith
weight_work_pos (one Doc.hard_line) = omega arith
weight_work_pos (one Doc.blank_line) = omega arith
weight_work_pos (one (Doc.cell i)) = omega arith
weight_work_pos (one (Doc.group d)) = omega arith
weight_work_pos (one (Doc.indent d)) = omega arith
weight_work_pos (one (Doc.margin d)) = omega arith
weight_work_pos (one (Doc.align d)) = omega arith
weight_work_pos (one (Doc.table d s)) = omega arith
weight_work_pos (one (Doc.fill ds)) = omega arith
weight_work_pos (one (Doc.concat ds)) = omega arith
weight_work_pos (one (Doc.prefer d e)) = omega arith
weight_work_pos (one (Doc.trailing d)) = omega arith
weight_work_pos (one (Doc.verbatim v)) = omega arith
weight_work_pos (filling ds) = omega arith

none_left : (until : ℕ) (p : Printer) → (if ltb until 0 then none else some p) ≡ some p
none_left until p = rw (not_less until) refl
  where
    not_less : (n : ℕ) → ltb n 0 ≡ false
    not_less n = ground arith

-- On at least as much fuel as its commands weigh, the printer runs a stack until so many commands are
-- left without a panic, if every verbatim block of it marks lines of its own.
pub run-total :
    (fuel : ℕ) (p : Printer) (stack : List Command) (until : ℕ)
    → SoundStack stack
    → weight stack ≤ fuel
    → (q : Printer) × (run fuel p stack until ≡ some q)
unfolding run SoundStack weight
run-total zero p [] until h k = (p, none_left until p)
run-total zero p (c ∷ stack) until h k = absurd (omega (arith, k, weight_work_pos c.doc))
run-total (suc fuel) p [] until h k = (p, refl)
run-total (suc fuel) p (c ∷ stack) until h k = elim (Bool-cases (ltb until (length (c ∷ stack)))) [
  | inl more ↦
      let (q, rest, ran, sound, bound) =
        command-Goes (run fuel) fuel p c c.doc stack (λ p s u h k. run-total fuel p s u h k) h.0 h.1
          k in
      rw (more, ran, ◌>>=◌) (run-total fuel q rest until sound bound)
  | inr e ↦ (p, rw e refl)
]
