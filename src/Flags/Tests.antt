-- ===== src/Flags/Tests.antt =====
-- Instances of the theorems on flags.
use rusty_v.Base.{arith}
use rusty_v.Flags.Attribute.{attribute_answers, attribute_flags, is_no_attributes}
use rusty_v.Flags.Filter.{filter_answers, filter_flags, is_all_properties}
use rusty_v.Flags.Handler.{handler_answers, handler_flags, is_no_handler_flags}
use rusty_v.Flags.Sets.{IsSetAlgebra, flags-IsSetAlgebra}

flags-IsSetAlgebra_example :
    IsSetAlgebra 8 attribute_flags is_no_attributes attribute_answers 5 1
    × IsSetAlgebra 32 filter_flags is_all_properties filter_answers 18 9
    × IsSetAlgebra 8 handler_flags is_no_handler_flags handler_answers 5 1
flags-IsSetAlgebra_example =
    flags-IsSetAlgebra 5 1 18 9 (omega arith) (omega arith) (omega arith) (omega arith)
