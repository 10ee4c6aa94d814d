-- ===== src/Remote/Upload/Memory.antt =====
-- How much of a remote script's output the transfers of internal/remote hold.
use winsh.Base.{
  ℕ, ◌≤◌, ◌≡◌, refl, Bool, true, false, List, length, length-append, ltb, ◌-◌, if-elim, arith,
}
use winsh.Remote.Codec.Lines.{BoundedOutput, bounded_write}
use winsh.Remote.Session.{History, Network}
use winsh.Remote.Runner.{Clock, receive_loop}
use winsh.Remote.Runner.Writers.{receive_loop-keeps}
use winsh.Remote.Upload.{Encoding, Outputs, output_sink, put_output, empty_output}

-- A buffer with a limit that it does not pass.
pub record Within (limit : ℕ) (b : BoundedOutput) : Type 0 where
  pub same : b.limit ≡ limit
  pub small : length b.held ≤ limit

bounded_write-Within :
    (limit : ℕ) (b : BoundedOutput) (p : List ℕ)
    → Within limit b
    → Within limit (bounded_write b p).1
unfolding bounded_write
bounded_write-Within limit b p w =
    if-elim (λ (r : Bool × BoundedOutput). Within limit r.1)
      (ltb (b.limit - length b.held) (length p)) (λ _. w)
      (λ room. record {
        same = w.same;
        small = ground (arith, w.same, w.small, length-append b.held p);
      })

put_output-Within :
    (l k : ℕ) (err : Bool) (s : Outputs) (p : List ℕ)
    → Within l s.0 × Within k s.1
    → Within l (put_output err s p).2.0 × Within k (put_output err s p).2.1
put_output-Within l k true (out, err_out) p (a, b) = (a, bounded_write-Within k err_out p b)
put_output-Within l k false (out, err_out) p (a, b) = (bounded_write-Within l out p a, b)

-- Whatever the server sends, and in how many replies, the receive loop of a remote script holds no
-- more of its output and of its error output than the two limits that it was given.
pub receive_loop-Within :
    (net : Network) (clock : Clock) (encoding : Encoding) (fuel : ℕ) (h : History) (l k : ℕ)
    → let outputs =
        (receive_loop net clock (output_sink encoding) fuel h (empty_output l, empty_output k)).2 in
      Within l outputs.0 × Within k outputs.1
receive_loop-Within net clock encoding fuel h l k =
    receive_loop-keeps (output_sink encoding) (λ s. Within l s.0 × Within k s.1)
      (λ err s p w. put_output-Within l k err s p w) net clock fuel h
      (empty_output l, empty_output k)
      (record { same = refl; small = omega arith }, record { same = refl; small = omega arith })
