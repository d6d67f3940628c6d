-- ===== src/Container/Closing.antt =====
-- Closing a container.
use pyfr_m8_verify.Container.{Closers, Container, close_container, if_open}
use pyfr_m8_verify.Errors.{Result, raised, ok}
use pyfr_m8_verify.Errors.Exec.{overrule}
use pyfr_m8_verify.Base.{◌≡◌, refl}

module _ {S : Type 0} (closers : Closers S) where
  -- The three closes one after the other, whatever they raise.
  abbrev pub closed : Container → S → S
  closed c s =
      (if_open closers.aclose_redis c.redis
        (if_open closers.aclose_http c.http_client (if_open closers.dispose c.engine s).1).1).1

  -- What is raised of three blocks in turn: the exception of the last that raised, if any did.
  abbrev pub last_raised :
      Result (Unit {0}) → Result (Unit {0}) → Result (Unit {0}) → Result (Unit {0})
  last_raised a b (raised e) = raised e
  last_raised a (raised e) (ok x) = raised e
  last_raised a (ok y) (ok x) = a

  last_raised-overrule : (a b c : Result (Unit {0})) → overrule a (overrule b c) ≡ last_raised a b c
  last_raised-overrule a b (raised e) = refl
  last_raised-overrule a (raised e) (ok x) = refl
  last_raised-overrule a (ok y) (ok x) = refl

  -- Every resource that is open is closed, the engine, the HTTP client and Redis in this order, whatever
  -- any of the closes raises; what is raised in the end is the exception of the last close that raised.
  pub close_container-closed :
      (c : Container) (s : S)
      → close_container closers c s ≡ (
        last_raised
            (if_open closers.dispose c.engine s).0
            (if_open closers.aclose_http c.http_client (if_open closers.dispose c.engine s).1).0
            (if_open closers.aclose_redis c.redis
              (if_open closers.aclose_http c.http_client
                (if_open closers.dispose c.engine s).1).1).0,
        closed c s,
      )
  unfolding close_container
  close_container-closed c s = rw last_raised-overrule
