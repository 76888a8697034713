-- ===== src/Tokens/Tests.antt =====
-- A run of the token server, and the theorems at it.
use cese_sopg_github_io.Common.{◌≡◌, refl, List, [], ◌∷◌, true, false, arith, map, replicate}
use cese_sopg_github_io.Memory.{Bytes, codes}
use cese_sopg_github_io.Posix.{running, run}
use cese_sopg_github_io.Tokens.Text.{decimal, digits}
use cese_sopg_github_io.Tokens.Kernel.{tokens_os}
use cese_sopg_github_io.Tokens.Given.{answer, asking, numbered, main-numbered, main-repeated}
use cese_sopg_github_io.Tokens.{Locals, main}

decimal_runs : decimal 1904 ≡ codes "1904"
unfolding decimal digits
decimal_runs = refl

abbrev garbage : Bytes
garbage = replicate 266 7

abbrev clients : List Bytes
clients = codes "/sp-example-client-12" ∷ codes "/sp-example-client-7" ∷ []

main-numbered_example :
    (s' : Locals) × (o' : Bytes) × (run
        (tokens_os true)
        (main 2 garbage garbage)
        (asking clients [] [])
      ≡ (running s', asking [] (numbered 1 clients) o'))
main-numbered_example =
    main-numbered clients garbage garbage [] refl refl
      ((refl, omega arith), ((refl, omega arith), tt)) (omega arith)

main-repeated_example :
    (s' : Locals) × (o' : Bytes) × (run
        (tokens_os false)
        (main 2 garbage garbage)
        (asking clients [] [])
      ≡ (running s', asking [] (map (λ n. answer n 1) clients) o'))
main-repeated_example =
    main-repeated clients garbage garbage [] refl refl
      ((refl, omega arith), ((refl, omega arith), tt)) (omega arith)
