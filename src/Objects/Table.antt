-- ===== src/Objects/Table.antt =====
-- native/include/openssl/obj_mac.h, whole: its stretches, the last one first.
use logful_api.Base.{List, ◌++◌}
use logful_api.Objects.Defs.{Obj}
use logful_api.Objects.PartOne.{objects_1, objects_2}
use logful_api.Objects.PartTwo.{objects_3, objects_4}
use logful_api.Objects.PartThree.{objects_5, objects_6}
use logful_api.Objects.PartFour.{objects_7, objects_8}
use logful_api.Objects.PartFive.{objects_9, objects_10}
use logful_api.Objects.PartSix.{objects_11, objects_12}
use logful_api.Objects.PartSeven.{objects_13, objects_14}
use logful_api.Objects.PartEight.{objects_15, objects_16}
use logful_api.Objects.PartNine.{objects_17, objects_18}
use logful_api.Objects.PartTen.{objects_19, objects_20}
use logful_api.Objects.PartEleven.{objects_21, objects_22}
use logful_api.Objects.PartTwelve.{objects_23, objects_24}
use logful_api.Objects.PartThirteen.{objects_25, objects_26}
use logful_api.Objects.PartFourteen.{objects_27}

unfoldable pub objects : List Obj
unfolding objects_1 objects_2 objects_3 objects_4 objects_5 objects_6 objects_7 objects_8 objects_9
    objects_10 objects_11 objects_12 objects_13 objects_14 objects_15 objects_16 objects_17
    objects_18 objects_19 objects_20 objects_21 objects_22 objects_23 objects_24 objects_25
    objects_26 objects_27
objects =
    objects_27
    ++ (objects_26
        ++ (objects_25
            ++ (objects_24
                ++ (objects_23
                    ++ (objects_22
                        ++ (objects_21
                            ++ (objects_20
                                ++ (objects_19
                                    ++ (objects_18
                                        ++ (objects_17
                                            ++ (objects_16
                                                ++ (objects_15
                                                    ++ (objects_14
                                                        ++ (objects_13
                                                            ++ (objects_12
                                                            ++ (objects_11
                                                            ++ (objects_10
                                                            ++ (objects_9
                                                            ++ (objects_8
                                                            ++ (objects_7
                                                            ++ (objects_6
                                                            ++ (objects_5
                                                            ++ (objects_4
                                                            ++ (objects_3
                                                            ++ (objects_2
                                                            ++ (objects_1))))))))))))))))))))))))))
