-- ===== src/Spool/Unnamed/Same.antt =====
-- material-clases/clase7/ejemplo-sem2/unnamed.c against named.c: the states that the two programs reach.
use cese_sopg_github_io.Common.{ℕ, ◌≡◌, refl, ap}
use cese_sopg_github_io.Spool.{Shared, Producer, take_signal, print_buffer, next, post_buffer}
use cese_sopg_github_io.Spool as Named
use cese_sopg_github_io.Spool.Unnamed.{
  System, Spooler, SpoolerMove, Step, Reach, IsRunning, init, wrapped, increment, wrap_index,
}
use cese_sopg_github_io.Spool.Unnamed as Unnamed

-- The spooler of named.c that stands where this one does, with the global as its local. The
-- increment and the test are one step of named.c, which the increment is taken to be.
abbrev pub named_spooler : ℕ → Spooler → Named.Spooler
named_spooler i Unnamed.wait_signal = Named.wait_signal i
named_spooler i Unnamed.print = Named.print i
named_spooler i Unnamed.advance = Named.advance i
named_spooler i Unnamed.wrap = Named.release_buffer (wrapped i)
named_spooler i Unnamed.release_buffer = Named.release_buffer i
named_spooler i (Unnamed.cancelled p) = Named.cancelled (named_spooler i p)

abbrev pub to_named : System → Named.System
to_named s = record {
  mem = s.mem;
  producer = s.producer;
  spooler = named_spooler s.buffer_print_index s.spooler;
}

abbrev index_of : Named.Spooler → ℕ
index_of (Named.wait_signal i) = i
index_of (Named.print i) = i
index_of (Named.advance i) = i
index_of (Named.release_buffer i) = i
index_of (Named.cancelled p) = index_of p

abbrev unnamed_spooler : Named.Spooler → Spooler
unnamed_spooler (Named.wait_signal i) = Unnamed.wait_signal
unnamed_spooler (Named.print i) = Unnamed.print
unnamed_spooler (Named.advance i) = Unnamed.advance
unnamed_spooler (Named.release_buffer i) = Unnamed.release_buffer
unnamed_spooler (Named.cancelled p) = Unnamed.cancelled (unnamed_spooler p)

-- The state of unnamed.c with the same memory and threads.
abbrev pub to_unnamed : Named.System → System
to_unnamed t = record {
  mem = t.mem;
  buffer_print_index = index_of t.spooler;
  producer = t.producer;
  spooler = unnamed_spooler t.spooler;
}

named-IsRunning : (i : ℕ) (p : Spooler) → IsRunning p → Named.IsRunning (named_spooler i p)
named-IsRunning i Unnamed.wait_signal r = r
named-IsRunning i Unnamed.print r = r
named-IsRunning i Unnamed.advance r = r
named-IsRunning i Unnamed.wrap r = r
named-IsRunning i Unnamed.release_buffer r = r
named-IsRunning i (Unnamed.cancelled p) r = r

unnamed-IsRunning : (p : Named.Spooler) → Named.IsRunning p → IsRunning (unnamed_spooler p)
unnamed-IsRunning (Named.wait_signal i) r = r
unnamed-IsRunning (Named.print i) r = r
unnamed-IsRunning (Named.advance i) r = r
unnamed-IsRunning (Named.release_buffer i) r = r
unnamed-IsRunning (Named.cancelled p) r = r

abbrev named_at : Shared → (ℕ → Producer) → Named.Spooler → Named.System
named_at m ps p = record { mem = m; producer = ps; spooler = p }

abbrev unnamed_at : Shared → ℕ → (ℕ → Producer) → Spooler → System
unnamed_at m i ps p = record { mem = m; buffer_print_index = i; producer = ps; spooler = p }

spooler-to_named :
    {n : ℕ} {m m' : Shared} {i j : ℕ} {p p' : Spooler} (ps : ℕ → Producer)
    → SpoolerMove m i p m' j p'
    → Named.Reach n (named_at m ps (named_spooler i p))
    → Named.Reach n (named_at m' ps (named_spooler j p'))
spooler-to_named ps (Unnamed.take_signal h) r = Named.later r (Named.run_spooler (take_signal h))
spooler-to_named ps Unnamed.print_buffer r = Named.later r (Named.run_spooler print_buffer)
spooler-to_named ps increment r = Named.later r (Named.run_spooler next)
spooler-to_named ps wrap_index r = r
spooler-to_named ps Unnamed.post_buffer r = Named.later r (Named.run_spooler post_buffer)

spooler-to_unnamed :
    {n : ℕ} {m m' : Shared} {p p' : Named.Spooler} (ps : ℕ → Producer)
    → Named.SpoolerMove m p m' p'
    → Reach n (unnamed_at m (index_of p) ps (unnamed_spooler p))
    → Reach n (unnamed_at m' (index_of p') ps (unnamed_spooler p'))
spooler-to_unnamed ps (take_signal h) r =
    Unnamed.later r (Unnamed.run_spooler (Unnamed.take_signal h))
spooler-to_unnamed ps print_buffer r = Unnamed.later r (Unnamed.run_spooler Unnamed.print_buffer)
spooler-to_unnamed ps next r =
    Unnamed.later (Unnamed.later r (Unnamed.run_spooler increment)) (Unnamed.run_spooler wrap_index)
spooler-to_unnamed ps post_buffer r = Unnamed.later r (Unnamed.run_spooler Unnamed.post_buffer)

reach-to_named : {n : ℕ} {s : System} → Reach n s → Named.Reach n (to_named s)
reach-to_named Unnamed.start = Named.start
reach-to_named (Unnamed.later {s} r (Unnamed.run_producer i h move)) =
    Named.later (reach-to_named r) (Named.run_producer i h move)
reach-to_named (Unnamed.later {s} r (Unnamed.run_spooler move)) =
    spooler-to_named s.producer move (reach-to_named r)
reach-to_named (Unnamed.later {s} r (Unnamed.cancel ends idle running)) =
    Named.later (reach-to_named r)
      (Named.cancel ends idle (named-IsRunning s.buffer_print_index s.spooler running))

reach-to_unnamed : {n : ℕ} {t : Named.System} → Named.Reach n t → Reach n (to_unnamed t)
reach-to_unnamed Named.start = Unnamed.start
reach-to_unnamed (Named.later {s = t} r (Named.run_producer i h move)) =
    Unnamed.later (reach-to_unnamed r) (Unnamed.run_producer i h move)
reach-to_unnamed (Named.later {s = t} r (Named.run_spooler move)) =
    spooler-to_unnamed t.producer move (reach-to_unnamed r)
reach-to_unnamed (Named.later {s = t} r (Named.cancel ends idle running)) =
    Unnamed.later (reach-to_unnamed r)
      (Unnamed.cancel ends idle (unnamed-IsRunning t.spooler running))

named_spooler-unnamed : (p : Named.Spooler) → named_spooler (index_of p) (unnamed_spooler p) ≡ p
named_spooler-unnamed (Named.wait_signal i) = refl
named_spooler-unnamed (Named.print i) = refl
named_spooler-unnamed (Named.advance i) = refl
named_spooler-unnamed (Named.release_buffer i) = refl
named_spooler-unnamed (Named.cancelled p) = ap Named.cancelled (named_spooler-unnamed p)

-- For any number of producers, the program with semaphores in memory and a global print index
-- reaches the states that the one with named semaphores reaches: what it reaches is reached there,
-- with the global taken for the spooler's local, and every state reached there is the image of one
-- that it reaches.
pub reach-same :
    (n : ℕ)
    → ((s : System) → Reach n s → Named.Reach n (to_named s))
      × ((t : Named.System) → Named.Reach n t → (s : System) × Reach n s × (to_named s ≡ t))
reach-same n = (
  λ s r. reach-to_named r,
  λ t r. (
    to_unnamed t,
    reach-to_unnamed r,
    ap (named_at t.mem t.producer) (named_spooler-unnamed t.spooler),
  ),
)
