-- ===== src/Tunnel/Hops.antt =====
-- Three parts one after another, and the streams between them.
use mathlib.Core.Path.{subst}
use mathlib.Core.List.{append_assoc}
use mhp.Prelude.{◌≡◌, ap, ◌∙◌, Option, [], ◌++◌, Bytes}
use mhp.Errors.{Error}
use mhp.Stream.Copy.Delivers.{Complete}
use mhp.Tunnel.Reaches.{
  Arrives, Reaches, first, Reaches-trans, Reaches-Arrives, Reaches-cancel, Arrives-whole,
}

-- What one part hands on, behind what its destination had.
pub record HandsOn (sent before output : Bytes) (end_error failed : Option Error) : Type 0 where
  pub done : Bytes
  pub left : Bytes
  pub parts : done ++ left ≡ sent
  pub output_is : output ≡ before ++ done
  pub all : Complete failed left end_error

-- What the last destination has got, behind what it had.
pub record Got (sent before output : Bytes) (failed : Option Error) : Type 0 where
  pub got : Bytes
  pub output_is : output ≡ before ++ got
  pub reaches : Reaches sent got failed

-- The first part starts behind a head that the last one does not see.
pub three_hops :
    (head sent before into_second into_third out_first out_second out_last : Bytes)
    (end_first end_second end_third e f g : Option Error)
    → HandsOn sent head out_first end_first e
    → Arrives out_first into_second end_second
    → HandsOn into_second [] out_second end_second f
    → Arrives out_second (head ++ into_third) end_third
    → HandsOn into_third before out_last end_third g
    → Got sent before out_last (first e (first f g))
three_hops head sent before into_second into_third out_first out_second out_last end_first
      end_second end_third e f g one to_second two to_third three =
    let by_first : Reaches sent one.done e =
      Reaches-Arrives sent sent one.done one.left end_first e (Arrives-whole sent end_first)
        one.parts one.all in
    let by_second : Reaches (head ++ one.done) two.done f =
      Reaches-Arrives _ into_second two.done two.left end_second f
        (subst (λ w. Arrives w into_second end_second) one.output_is to_second) two.parts two.all in
    let by_third : Reaches two.done (head ++ three.done) g =
      Reaches-Arrives _ _ (head ++ three.done) three.left end_third g
        (subst (λ w. Arrives w (head ++ into_third) end_third) two.output_is to_third)
        (append_assoc head three.done three.left ∙ ap (λ q. head ++ q) three.parts) three.all in
    record {
      got = three.done;
      output_is = three.output_is;
      reaches =
          Reaches-trans sent one.done three.done e (first f g)
            (Reaches-cancel head one.done three.done _
              (Reaches-trans _ two.done (head ++ three.done) f g by_third by_second))
            by_first;
    }
