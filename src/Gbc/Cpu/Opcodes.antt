-- ===== src/Gbc/Cpu/Opcodes.antt =====
-- gbc/cpu.rs: `execute_opcode`, the `match` on the opcode.
mod Loads
mod Arithmetic
mod Control
unfoldable pub use Loads.*
unfoldable pub use Arithmetic.*
unfoldable pub use Control.*
use emulator_app.Base.{ℕ, List, ◌++◌}
use emulator_app.Gbc.Cpu.Actions.{Action, dispatch}

unfoldable pub instructions : List (ℕ × Action)
instructions =
    wide_loads
    ++ (immediate_loads
        ++ (copies_a_b_c
            ++ (copies_d_e_h_l
                ++ (stores_and_copies_of_a
                    ++ (memory_loads
                        ++ (additions
                            ++ (subtractions
                                ++ (ands_and_xors
                                    ++ (ors_and_compares
                                        ++ (increments
                                            ++ (decrements
                                                ++ (wide_arithmetic
                                                    ++ (rotates
                                                        ++ (jumps
                                                            ++ (calls
                                                            ++ (restarts
                                                            ++ (control
                                                            ++ (adjustments
                                                            ++ (stack_arithmetic)))))))))))))))))))

-- An opcode with no arm costs four cycles.
unfoldable pub execute_opcode : ℕ → Action
unfolding instructions
execute_opcode opcode = dispatch instructions opcode (λ m. (m, 4))
